-- ===== src/Query/Cut.antt =====
-- A response that is cut short is refused.
use ucl_mpcomm.Common.{
  ◌==◌, Bool-cases, Option-cases, ℕ, zero, suc, ◌≡◌, refl, sym, ap, ◌∙◌, ◌≢◌, inl, inr, true,
  Option, none, some, List, [], ◌∷◌, ◌++◌,
}
use ucl_mpcomm.Errors.{err_connection}
use ucl_mpcomm.Published.{BufferEntry}
use ucl_mpcomm.Query.Bytes.{from_bytes, recv, recv_number, extend, recv-more}
use ucl_mpcomm.Query.{
  c_string, handle_buffer_query, Receiver, followed_by, return, recv_gids, recv_rkeys, recv_entry,
  recv_entries, recv_response, ConnectionInfo, query_remote_buffer,
}
use ucl_mpcomm.Query.Laws.{followed_by-some, IsPublishable, recv_response-handle}

-- More bytes behind change nothing for a receiver that has enough.
abbrev pub IsMonotone {ℓ} : {A : Type ℓ} → Receiver A → Type ℓ
IsMonotone {A} p =
    (bytes more : List ℕ) (a : A) (rest : List ℕ)
    → p bytes ≡ some (a, rest)
    → p (bytes ++ more) ≡ some (a, rest ++ more)

followed_by-IsMonotone :
    {A B : Type 0} (p : Receiver A) (next : A → Receiver B)
    → IsMonotone p
    → ((a : A) → IsMonotone (next a))
    → IsMonotone (followed_by p next)
unfolding followed_by
followed_by-IsMonotone p next m n bytes more b rest e = elim (Option-cases (p bytes)) [
  | inl short ↦ absurd (cc (short, e))
  | inr ((a, left), got) ↦
      followed_by-some p next (m bytes more a left got)
      ∙ n a left more b rest (sym (followed_by-some p next got) ∙ e)
]

return-IsMonotone : {A : Type 0} (a : A) → IsMonotone (return a)
return-IsMonotone a bytes more b rest e = ap (extend more) e

recv_number-IsMonotone : (n : ℕ) → IsMonotone (recv_number n)
recv_number-IsMonotone n bytes more v rest e = elim (Option-cases (recv n bytes)) [
  | inl short ↦ absurd (cc (short, e))
  | inr ((bs, left), got) ↦
      let value : recv_number n bytes ≡ some (from_bytes bs, left) = rw (recv_number, got) refl in
      rw (recv_number, recv-more n bytes more bs left got) (ap (extend more) (sym value ∙ e))
]

recv_gids-IsMonotone : (n : ℕ) → IsMonotone (recv_gids n)
unfolding recv_gids
recv_gids-IsMonotone zero = return-IsMonotone []
recv_gids-IsMonotone (suc n) = followed_by-IsMonotone (recv 64) _ (recv-more 64) (λ gid.
    followed_by-IsMonotone (recv_gids n) _ (recv_gids-IsMonotone n)
      (λ gids. return-IsMonotone (c_string gid ∷ gids)))

recv_rkeys-IsMonotone : (n : ℕ) → IsMonotone (recv_rkeys n)
unfolding recv_rkeys
recv_rkeys-IsMonotone zero = return-IsMonotone []
recv_rkeys-IsMonotone (suc n) =
    followed_by-IsMonotone (recv_number 4) _ (recv_number-IsMonotone 4) (λ k.
      followed_by-IsMonotone (recv_rkeys n) _ (recv_rkeys-IsMonotone n)
        (λ ks. return-IsMonotone (k ∷ ks)))

recv_entry-IsMonotone : (nics : ℕ) → IsMonotone (recv_entry nics)
unfolding recv_entry
recv_entry-IsMonotone nics =
    followed_by-IsMonotone (recv_number 8) _ (recv_number-IsMonotone 8) (λ a.
      followed_by-IsMonotone (recv_number 8) _ (recv_number-IsMonotone 8) (λ l.
        followed_by-IsMonotone (recv_number 4) _ (recv_number-IsMonotone 4) (λ n.
          followed_by-IsMonotone (recv_rkeys nics) _ (recv_rkeys-IsMonotone nics)
            (λ ks. return-IsMonotone _))))

recv_entries-IsMonotone : (nics n : ℕ) → IsMonotone (recv_entries nics n)
unfolding recv_entries
recv_entries-IsMonotone nics zero = return-IsMonotone []
recv_entries-IsMonotone nics (suc n) =
    followed_by-IsMonotone (recv_entry nics) _ (recv_entry-IsMonotone nics) (λ e.
      followed_by-IsMonotone (recv_entries nics n) _ (recv_entries-IsMonotone nics n)
        (λ es. return-IsMonotone (e ∷ es)))

recv_response-IsMonotone : IsMonotone recv_response
unfolding recv_response
recv_response-IsMonotone = followed_by-IsMonotone (recv_number 4) _ (recv_number-IsMonotone 4) (λ n.
    elim (Bool-cases (n == 0)) [
      | inl none_there ↦ rw none_there (return-IsMonotone ([], []))
      | inr some_there ↦ rw some_there (
          followed_by-IsMonotone (recv_number 4) _ (recv_number-IsMonotone 4) (λ nics.
            followed_by-IsMonotone (recv_gids nics) _ (recv_gids-IsMonotone nics) (λ gids.
              followed_by-IsMonotone (recv_entries nics n) _ (recv_entries-IsMonotone nics n)
                (λ es. return-IsMonotone (gids, es)))))
    ])

-- What a receiver leaves on the stream.
abbrev left_over : {A : Type 0} → Option (A × List ℕ) → List ℕ
left_over none = []
left_over (some (a, rest)) = rest

append-eq-nil : (xs ys : List ℕ) → xs ++ ys ≡ [] → ys ≡ []
append-eq-nil [] ys e = e
append-eq-nil (x ∷ xs) ys e = cc

-- A response that breaks off anywhere is refused: `queryRemoteBuffer` reports a connection error
-- and leaves the connection as it was.
pub query_remote_buffer-cut :
    (gids : List (List ℕ)) (es : List BufferEntry) (sent missing : List ℕ)
    (conn : Option ConnectionInfo)
    → IsPublishable gids es
    → sent ++ missing ≡ handle_buffer_query gids (some es)
    → missing ≢ []
    → query_remote_buffer true true sent conn ≡ (err_connection, [], conn)
unfolding query_remote_buffer
query_remote_buffer-cut gids es sent missing conn p split some_missing =
    elim (Option-cases (recv_response sent)) [
      | inl none_there ↦ rw (query_remote_buffer, none_there) refl
      | inr ((r, rest), got) ↦
          let whole : some ((gids, es), []) ≡ some (r, rest ++ missing) =
            sym (recv_response-handle gids es p)
            ∙ (ap recv_response (sym split) ∙ recv_response-IsMonotone sent missing r rest got) in
          absurd (some_missing (append-eq-nil rest missing (sym (ap left_over whole))))
    ]
