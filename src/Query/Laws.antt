-- ===== src/Query/Laws.antt =====
-- What one host publishes is what the other receives.
use ucl_mpcomm.Common.{
  ◌==◌, length, get_or, take, replicate, length-append, length-replicate, All, ℤ, pos, negsuc, ℕ,
  zero, suc, ◌-◌, ◌%◌, ◌^◌, ◌≤◌, ◌<◌, ◌≡◌, refl, ap, subst, ◌∙◌, false, some, List, [], ◌∷◌, ◌++◌,
  arith,
}
use mathlib.Core.List.{append_assoc}
use ucl_mpcomm.Published.{BufferEntry}
use ucl_mpcomm.Query.Bytes.{
  to_bytes, to_int32, recv, recv-append, recv_number-to_bytes, Fits32, from_int32-to_int32,
}
use ucl_mpcomm.Query.{
  c_string, gid_buffer, send_gids, send_rkeys, send_entries, handle_buffer_query, Receiver,
  followed_by, recv_gids, recv_rkeys, recv_entry, recv_entries, recv_response,
}

-- A string that fits the GID buffer: at most 63 characters, none of them NUL.
abbrev pub IsShort : List ℕ → Type 0
IsShort gid = All (λ (c : ℕ). 0 < c) gid × (length gid ≤ 63)

take-short {ℓ} : {A : Type ℓ} (n : ℕ) (xs : List A) → length xs ≤ n → take n xs ≡ xs
take-short zero [] h = refl
take-short (suc n) [] h = refl
take-short zero (x ∷ xs) h = absurd (omega arith)
take-short (suc n) (x ∷ xs) h = ap (λ l. x ∷ l) (take-short n xs (omega arith))

c_string-short : (gid : List ℕ) → All (λ (c : ℕ). 0 < c) gid → c_string gid ≡ gid
unfolding c_string
c_string-short [] h = refl
c_string-short (c ∷ gid) h = ground (arith, h.0, c_string-short gid h.1)

c_string-padded :
    (gid : List ℕ) (n : ℕ)
    → All (λ (c : ℕ). 0 < c) gid
    → c_string (gid ++ replicate (suc n) 0) ≡ gid
unfolding c_string
c_string-padded [] n h = refl
c_string-padded (c ∷ gid) n h = ground (arith, h.0, c_string-padded gid n h.1)

gid_buffer-short :
    (gid : List ℕ) → IsShort gid → gid_buffer gid ≡ gid ++ replicate (64 - length gid) 0
unfolding gid_buffer
gid_buffer-short gid h = rw (c_string-short gid h.0, take-short 63 gid h.1) refl

c_string-gid_buffer : (gid : List ℕ) → IsShort gid → c_string (gid_buffer gid) ≡ gid
c_string-gid_buffer gid h =
    let some_zeros : 64 - length gid ≡ suc (63 - length gid) = omega (arith, h.1) in
    rw (gid_buffer-short gid h, some_zeros) (c_string-padded gid (63 - length gid) h.0)

length-gid_buffer : (gid : List ℕ) → IsShort gid → length (gid_buffer gid) ≡ 64
length-gid_buffer gid h =
    rw
      (
        gid_buffer-short gid h,
        length-append gid (replicate (64 - length gid) 0),
        length-replicate {A = ℕ} (64 - length gid) 0,
      )
      (omega (arith, h.1))

recv-gid_buffer :
    (gid rest : List ℕ)
    → IsShort gid
    → recv 64 (gid_buffer gid ++ rest) ≡ some (gid_buffer gid, rest)
recv-gid_buffer gid rest h =
    subst (λ (n : ℕ). recv n (gid_buffer gid ++ rest) ≡ some (gid_buffer gid, rest))
      (length-gid_buffer gid h) (recv-append (gid_buffer gid) rest)

pub followed_by-some {ℓ} :
    {A B : Type ℓ} (p : Receiver A) (next : A → Receiver B) {bytes : List ℕ} {a : A} {rest : List ℕ}
    → p bytes ≡ some (a, rest)
    → followed_by p next bytes ≡ next a rest
unfolding followed_by
followed_by-some p next {bytes} e = rw (followed_by, e) refl

recv_gids-send :
    (gids : List (List ℕ)) (rest : List ℕ)
    → All IsShort gids
    → recv_gids (length gids) (send_gids gids ++ rest) ≡ some (gids, rest)
unfolding recv_gids send_gids
recv_gids-send [] rest h = refl
recv_gids-send (gid ∷ gids) rest h = rw (append_assoc (gid_buffer gid) (send_gids gids) rest) (
    followed_by-some _ _ (recv-gid_buffer gid (send_gids gids ++ rest) h.0)
    ∙ (followed_by-some _ _ (recv_gids-send gids rest h.1)
        ∙ ap (λ (g : List ℕ). some (g ∷ gids, rest)) (c_string-gid_buffer gid h.0)))

get_or-middle :
    (before : List ℕ) (k : ℕ) (after : List ℕ) (d : ℕ)
    → get_or (before ++ (k ∷ after)) (length before) d ≡ k
get_or-middle [] k after d = refl
get_or-middle (b ∷ before) k after d = get_or-middle before k after d

-- The keys of an entry, from some NIC on.
recv_rkeys-send :
    (before keys rest : List ℕ)
    → All (λ (k : ℕ). k < 2 ^ 32) keys
    → recv_rkeys (length keys) (send_rkeys (before ++ keys) (length before) (length keys) ++ rest)
      ≡ some (keys, rest)
unfolding recv_rkeys send_rkeys
recv_rkeys-send before [] rest h = refl
recv_rkeys-send before (k ∷ keys) rest h =
    let at : get_or (before ++ (k ∷ keys)) (length before) 0 ≡ k = get_or-middle before k keys 0 in
    let moved : (before ++ (k ∷ [])) ++ keys ≡ before ++ (k ∷ keys) =
      append_assoc before (k ∷ []) keys in
    let next : length (before ++ (k ∷ [])) ≡ suc (length before) =
      omega (arith, length-append before (k ∷ [])) in
    let rest_of : recv_rkeys (length keys)
          (send_rkeys (before ++ (k ∷ keys)) (suc (length before)) (length keys) ++ rest)
        ≡ some (keys, rest) =
      subst
        (λ (l : List ℕ).
          recv_rkeys (length keys) (send_rkeys l (suc (length before)) (length keys) ++ rest)
          ≡ some (keys, rest))
        moved
        (subst
          (λ (n : ℕ).
            recv_rkeys (length keys)
              (send_rkeys ((before ++ (k ∷ [])) ++ keys) n (length keys) ++ rest)
            ≡ some (keys, rest))
          next (recv_rkeys-send (before ++ (k ∷ [])) keys rest h.1)) in
    rw
      (
        at,
        append_assoc (to_bytes 4 k)
            (send_rkeys (before ++ (k ∷ keys)) (suc (length before)) (length keys)) rest,
      )
      (followed_by-some _ _ (recv_number-to_bytes 4 k _ (omega (arith, h.0)))
        ∙ followed_by-some _ _ rest_of)

-- An entry that its wire format holds, with a key for each of the NICs.
pub record IsSendable (nics : ℕ) (e : BufferEntry) : Type 0 where
  pub addr : e.addr < 2 ^ 64
  pub len : e.length < 2 ^ 64
  pub numa_node : Fits32 e.numa_node
  pub keys : length e.rkeys ≡ nics
  pub each : All (λ (k : ℕ). k < 2 ^ 32) e.rkeys

abbrev entry_bytes : ℕ → BufferEntry → List ℕ → List ℕ
entry_bytes nics e rest =
    to_bytes 8 e.addr
    ++ (to_bytes 8 e.length
        ++ (to_bytes 4 (to_int32 e.numa_node) ++ (send_rkeys e.rkeys 0 nics ++ rest)))

to_int32-lt : (a : ℤ) → to_int32 a < 256 ^ 4
to_int32-lt (pos n) = omega arith
to_int32-lt (negsuc n) = omega arith

recv_entry-send :
    (nics : ℕ) (e : BufferEntry) (rest : List ℕ)
    → IsSendable nics e
    → recv_entry nics (entry_bytes nics e rest) ≡ some (e, rest)
unfolding recv_entry
recv_entry-send nics e rest s =
    let keys : recv_rkeys nics (send_rkeys e.rkeys 0 nics ++ rest) ≡ some (e.rkeys, rest) =
      subst (λ (n : ℕ). recv_rkeys n (send_rkeys e.rkeys 0 n ++ rest) ≡ some (e.rkeys, rest)) s.keys
        (recv_rkeys-send [] e.rkeys rest s.each) in
    followed_by-some _ _ (recv_number-to_bytes 8 e.addr _ (omega (arith, s.addr)))
    ∙ (followed_by-some _ _ (recv_number-to_bytes 8 e.length _ (omega (arith, s.len)))
        ∙ (followed_by-some _ _
              (recv_number-to_bytes 4 (to_int32 e.numa_node) _ (to_int32-lt e.numa_node))
            ∙ (followed_by-some _ _ keys
                ∙ ap (λ (n : ℤ). some (record e { numa_node = n }, rest))
                    (from_int32-to_int32 e.numa_node s.numa_node))))

recv_entries-send :
    (nics : ℕ) (es : List BufferEntry)
    → All (IsSendable nics) es
    → recv_entries nics (length es) (send_entries nics es) ≡ some (es, [])
unfolding recv_entries send_entries
recv_entries-send nics [] s = refl
recv_entries-send nics (e ∷ es) s =
    followed_by-some _ _ (recv_entry-send nics e (send_entries nics es) s.0)
    ∙ followed_by-some _ _ (recv_entries-send nics es s.1)

-- What a host can publish to others: GIDs of at most 63 characters, counts of 32 bits, at least one
-- buffer, and entries that their wire format holds.
pub record IsPublishable (gids : List (List ℕ)) (es : List BufferEntry) : Type 0 where
  pub strings : All IsShort gids
  pub nics : length gids < 2 ^ 32
  pub buffers : length es < 2 ^ 32
  pub some_buffer : 0 < length es
  pub entries : All (IsSendable (length gids)) es

handle_buffer_query-bytes :
    (gids : List (List ℕ)) (es : List BufferEntry)
    → IsPublishable gids es
    → handle_buffer_query gids (some es)
      ≡ to_bytes 4 (length es)
        ++ (to_bytes 4 (length gids) ++ (send_gids gids ++ send_entries (length gids) es))
unfolding handle_buffer_query
handle_buffer_query-bytes gids es p =
    let buffers : length es % 2 ^ 32 ≡ length es = omega (arith, p.buffers) in
    let nics : length gids % 2 ^ 32 ≡ length gids = omega (arith, p.nics) in
    let not_zero : (length es == 0) ≡ false = ground (arith, p.some_buffer) in
    rw
      (
        buffers,
        nics,
        not_zero,
        take-short (length gids) gids (omega arith),
        take-short (length es) es (omega arith),
      )
      refl

-- The asking host receives exactly the GIDs and the buffers that the other has, and nothing is left
-- on the stream.
pub recv_response-handle :
    (gids : List (List ℕ)) (es : List BufferEntry)
    → IsPublishable gids es
    → recv_response (handle_buffer_query gids (some es)) ≡ some ((gids, es), [])
unfolding recv_response
recv_response-handle gids es p =
    let not_zero : (length es == 0) ≡ false = ground (arith, p.some_buffer) in
    rw (handle_buffer_query-bytes gids es p) (
      followed_by-some _ _ (recv_number-to_bytes 4 (length es) _ (omega (arith, p.buffers)))
      ∙ rw not_zero (
          followed_by-some _ _ (recv_number-to_bytes 4 (length gids) _ (omega (arith, p.nics)))
          ∙ (followed_by-some _ _ (recv_gids-send gids _ p.strings)
              ∙ followed_by-some _ _ (recv_entries-send (length gids) es p.entries))))
