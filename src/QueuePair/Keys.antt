-- ===== src/QueuePair/Keys.antt =====
-- A key of `qp_map` is taken apart into what it was made of.
use ucl_mpcomm.Common.{
  All, append_assoc, ℕ, ◌≡◌, refl, ap, ◌∙◌, ◌≢◌, none, some, List, [], ◌∷◌, ◌++◌, arith,
}
use ucl_mpcomm.Gid.{colon}
use ucl_mpcomm.QueuePair.{qp_key, split_last, key_host, key_remote}

-- Text without a colon.
abbrev pub NoColon : List ℕ → Type 0
NoColon cs = All (λ c. c ≢ colon) cs

split_last-none : (cs : List ℕ) → NoColon cs → split_last cs ≡ none
unfolding split_last
split_last-none [] all = refl
split_last-none (c ∷ cs) (differs, all) =
    rw (split_last-none cs all, split_last) (ground (arith, differs))

split_last-append :
    (before behind : List ℕ)
    → NoColon behind
    → split_last (before ++ (colon ∷ behind)) ≡ some (before, behind)
unfolding split_last
split_last-append [] behind all = rw (split_last-none behind all, split_last) refl
split_last-append (c ∷ cs) behind all = rw (split_last-append cs behind all, split_last) refl

-- If numbers are printed without colons, the host id and the text of the remote NIC are read back
-- from a key, also when the host id has colons.
pub key-qp_key :
    (to_string : ℕ → List ℕ) (host_id : List ℕ) (local_nic remote_nic : ℕ)
    → ((n : ℕ) → NoColon (to_string n))
    → let key = qp_key to_string host_id local_nic remote_nic in
      (key_host key ≡ host_id) × (key_remote key ≡ to_string remote_nic)
unfolding qp_key key_host key_remote
key-qp_key to_string host_id local_nic remote_nic printed =
    let front = host_id ++ (colon ∷ to_string local_nic) in
    let apart : qp_key to_string host_id local_nic remote_nic
        ≡ front ++ (colon ∷ to_string remote_nic) =
      append_assoc host_id (colon ∷ to_string local_nic) (colon ∷ to_string remote_nic) in
    let outer = split_last-append front (to_string remote_nic) (printed remote_nic) in
    let inner = split_last-append host_id (to_string local_nic) (printed local_nic) in
    (
      ap key_host apart ∙ rw (outer, key_host, inner) refl,
      ap key_remote apart ∙ rw (outer, key_remote) refl,
    )
