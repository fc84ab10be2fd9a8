-- ===== src/Query/Rkeys.antt =====
-- The keys that a user sets for a connected host: `updateRemoteMemoryInfo`.
use ucl_mpcomm.Common.{
  length, get_or, ℤ, ℕ, zero, suc, ◌≤◌, ◌<◌, ◌≡◌, refl, sym, ◌∙◌, Option, none, some, List, [], ◌∷◌,
  arith,
}
use ucl_mpcomm.Errors.{success, err_connection}
use ucl_mpcomm.Query.{Endpoint, ConnectionInfo, endpoint_rkey, find_remote, get_rkey_for_addr}

-- The endpoints take the keys in order, as many as there are of both.
unfoldable set_rkeys : List ℕ → List Endpoint → List Endpoint
set_rkeys [] eps = eps
set_rkeys (rkey ∷ rkeys) [] = []
set_rkeys (rkey ∷ rkeys) (ep ∷ eps) = record ep { rkey = rkey } ∷ set_rkeys rkeys eps

unfoldable update_remote_memory_info : List ℕ → Option ConnectionInfo → ℤ × Option ConnectionInfo
update_remote_memory_info rkeys none = (err_connection, none)
update_remote_memory_info rkeys (some conn) =
    (success, some (record conn { nic_endpoints = set_rkeys rkeys conn.nic_endpoints }))

endpoint_rkey-set_rkeys :
    (rkeys : List ℕ) (eps : List Endpoint) (i : ℕ)
    → i < length rkeys
    → i < length eps
    → endpoint_rkey (set_rkeys rkeys eps) i ≡ get_or rkeys i 0
unfolding set_rkeys endpoint_rkey
endpoint_rkey-set_rkeys [] eps i p q = absurd (omega (arith, p))
endpoint_rkey-set_rkeys (rkey ∷ rkeys) [] i p q = absurd (omega (arith, q))
endpoint_rkey-set_rkeys (rkey ∷ rkeys) (ep ∷ eps) zero p q = refl
endpoint_rkey-set_rkeys (rkey ∷ rkeys) (ep ∷ eps) (suc i) p q =
    endpoint_rkey-set_rkeys rkeys eps i (omega arith) (omega arith)

endpoint_rkey-kept :
    (rkeys : List ℕ) (eps : List Endpoint) (i : ℕ)
    → length rkeys ≤ i
    → endpoint_rkey (set_rkeys rkeys eps) i ≡ endpoint_rkey eps i
unfolding set_rkeys endpoint_rkey
endpoint_rkey-kept [] eps i p = refl
endpoint_rkey-kept (rkey ∷ rkeys) [] i p = refl
endpoint_rkey-kept (rkey ∷ rkeys) (ep ∷ eps) zero p = absurd (omega (arith, p))
endpoint_rkey-kept (rkey ∷ rkeys) (ep ∷ eps) (suc i) p =
    endpoint_rkey-kept rkeys eps i (omega arith)

get_rkey_for_addr-outside :
    (conn : ConnectionInfo) (addr i : ℕ)
    → find_remote addr conn.remote_buffers ≡ none
    → get_rkey_for_addr conn addr i ≡ endpoint_rkey conn.nic_endpoints i
unfolding get_rkey_for_addr
get_rkey_for_addr-outside conn addr i outside = rw (outside, get_rkey_for_addr) refl

-- The call succeeds for a connected host. Then, at an address outside all buffers that the host is
-- known to have published, a transfer uses the key that was set for its NIC, and the old one where
-- none was set.
get_rkey_for_addr-update_remote_memory_info :
    (rkeys : List ℕ) (conn : ConnectionInfo) (addr i : ℕ)
    → find_remote addr conn.remote_buffers ≡ none
    → i < length conn.nic_endpoints
    → (conn' : ConnectionInfo) × (update_remote_memory_info rkeys (some conn)
        ≡ (success, some conn'))
      × (i < length rkeys → get_rkey_for_addr conn' addr i ≡ get_or rkeys i 0)
      × (length rkeys ≤ i → get_rkey_for_addr conn' addr i ≡ get_rkey_for_addr conn addr i)
unfolding update_remote_memory_info
get_rkey_for_addr-update_remote_memory_info rkeys conn addr i outside q =
    let conn' = record conn { nic_endpoints = set_rkeys rkeys conn.nic_endpoints } in
    let uses = get_rkey_for_addr-outside conn' addr i outside in
    (
      conn',
      refl,
      (λ p. uses ∙ endpoint_rkey-set_rkeys rkeys conn.nic_endpoints i p q),
      (λ p.
          uses
          ∙ endpoint_rkey-kept rkeys conn.nic_endpoints i p
          ∙ sym (get_rkey_for_addr-outside conn addr i outside)),
    )
