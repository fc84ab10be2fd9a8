-- ===== src/Query.antt =====
-- The buffer query of src/mpcomm.cpp: `handleBufferQuery` on the host that publishes, and
-- `queryRemoteBuffer` and `queryRemoteBufferByNuma` on the host that asks. A stream is its bytes; a
-- string is its characters.
pub mod Bytes
pub mod Laws
pub mod Cut
pub mod Keys
pub mod Rkeys
mod Tests
use ucl_mpcomm.Common.{
  ltb, leb, ◌==◌, if◌then◌else◌, length, get_or, take, replicate, ℤ, nonneg, eq_ℤ, add64, ℕ, zero,
  suc, ◌-◌, ◌%◌, ◌^◌, Bool, true, false, not, ◌&&◌, Option, none, some, List, [], ◌∷◌, ◌++◌,
}
use ucl_mpcomm.Errors.{success, err_context, err_connection, err_invalid_arg}
use ucl_mpcomm.Published.{BufferEntry, null_or}
use ucl_mpcomm.Query.Bytes.{to_bytes, to_int32, from_int32, recv, recv_number}

-- A string into a buffer of 64 zeros by `strncpy` of at most 63 characters, and back.
unfoldable pub c_string : List ℕ → List ℕ
c_string [] = []
c_string (c ∷ cs) = if c == 0 then [] else c ∷ c_string cs

unfoldable pub gid_buffer : List ℕ → List ℕ
unfolding c_string
gid_buffer gid = let copied = take 63 (c_string gid) in copied ++ replicate (64 - length copied) 0

-- What `handleBufferQuery` sends, where no `send` fails.
unfoldable pub send_gids : List (List ℕ) → List ℕ
unfolding gid_buffer
send_gids [] = []
send_gids (gid ∷ gids) = gid_buffer gid ++ send_gids gids

-- The loop over the keys of the NICs from `nic` on, `n` of them.
unfoldable pub send_rkeys : List ℕ → ℕ → ℕ → List ℕ
send_rkeys rkeys nic zero = []
send_rkeys rkeys nic (suc n) = to_bytes 4 (get_or rkeys nic 0) ++ send_rkeys rkeys (suc nic) n

unfoldable pub send_entries : ℕ → List BufferEntry → List ℕ
unfolding send_rkeys
send_entries num_nics [] = []
send_entries num_nics (e ∷ es) =
    to_bytes 8 e.addr
    ++ (to_bytes 8 e.length
        ++ (to_bytes 4 (to_int32 e.numa_node)
            ++ (send_rkeys e.rkeys 0 num_nics ++ send_entries num_nics es)))

-- `gids` are the GIDs of the host's NICs, printed.
unfoldable pub handle_buffer_query : List (List ℕ) → Option (List BufferEntry) → List ℕ
unfolding send_gids send_entries
handle_buffer_query gids published =
    let num_buffers = length (null_or published) % 2 ^ 32 in
    let num_nics = length gids % 2 ^ 32 in
    if num_buffers == 0
    then to_bytes 4 0
    else to_bytes 4 num_buffers
      ++ (to_bytes 4 num_nics
          ++ (send_gids (take num_nics gids)
              ++ send_entries num_nics (take num_buffers (null_or published))))

-- A receiver takes its bytes off the stream; `none` where the stream ends too early.
abbrev pub Receiver {ℓ} : Type ℓ → Type ℓ
Receiver A = List ℕ → Option (A × List ℕ)

unfoldable pub followed_by {ℓ} : {A B : Type ℓ} → Receiver A → (A → Receiver B) → Receiver B
followed_by p next bytes = elim (p bytes) [ none ↦ none | some (a, rest) ↦ next a rest ]

abbrev pub return {ℓ} : {A : Type ℓ} → A → Receiver A
return a bytes = some (a, bytes)

unfoldable pub recv_gids : ℕ → Receiver (List (List ℕ))
unfolding c_string
recv_gids zero = return []
recv_gids (suc n) =
    followed_by (recv 64) (λ gid. followed_by (recv_gids n) (λ gids. return (c_string gid ∷ gids)))

unfoldable pub recv_rkeys : ℕ → Receiver (List ℕ)
recv_rkeys zero = return []
recv_rkeys (suc n) =
    followed_by (recv_number 4)
      (λ rkey. followed_by (recv_rkeys n) (λ rkeys. return (rkey ∷ rkeys)))

unfoldable pub recv_entry : ℕ → Receiver BufferEntry
unfolding recv_rkeys
recv_entry num_nics = followed_by (recv_number 8) (λ addr. followed_by (recv_number 8) (λ len.
    followed_by (recv_number 4) (λ numa_node. followed_by (recv_rkeys num_nics) (λ rkeys.
      return
        (record { addr = addr; length = len; numa_node = from_int32 numa_node; rkeys = rkeys })))))

unfoldable pub recv_entries : ℕ → ℕ → Receiver (List BufferEntry)
unfolding recv_entry
recv_entries num_nics zero = return []
recv_entries num_nics (suc n) =
    followed_by (recv_entry num_nics)
      (λ e. followed_by (recv_entries num_nics n) (λ es. return (e ∷ es)))

-- The GIDs and the buffers received, none of them where the count is 0.
unfoldable pub recv_response : Receiver (List (List ℕ) × List BufferEntry)
unfolding recv_gids recv_entries
recv_response = followed_by (recv_number 4) (λ num_buffers.
    if num_buffers == 0
    then return ([], [])
    else followed_by (recv_number 4) (λ num_nics.
      followed_by (recv_gids num_nics)
        (λ gids. followed_by (recv_entries num_nics num_buffers) (λ es. return (gids, es)))))

-- A NIC of the remote host, as the connection knows it.
pub record Endpoint : Type 0 where
  pub gid : List ℕ
  pub rkey : ℕ

-- The fields of `ConnectionInfo` that the queries and `getRkeyForAddr` use. `remote_buffers` lists
-- the map's entries, in the map's unspecified order.
pub record ConnectionInfo : Type 0 where
  pub nic_endpoints : List Endpoint
  pub remote_buffers : List BufferEntry

abbrev pub eq_string : List ℕ → List ℕ → Bool
eq_string [] [] = true
eq_string [] (d ∷ ds) = false
eq_string (c ∷ cs) [] = false
eq_string (c ∷ cs) (d ∷ ds) = (c == d) && eq_string cs ds

-- The loop over the remote NICs from `idx` on: the key at the first one with the GID.
unfoldable pub match_rkey : List ℕ → List ℕ → ℕ → List (List ℕ) → Option ℕ
match_rkey rkeys gid idx [] = none
match_rkey rkeys gid idx (g ∷ gs) =
    let rest = match_rkey rkeys gid (suc idx) gs in
    if eq_string g gid then some (get_or rkeys idx 0) else rest

-- A key that is not matched stays as `resize` made it, 0.
unfoldable pub reorder_rkeys : List (List ℕ) → List ℕ → List Endpoint → List ℕ
unfolding match_rkey
reorder_rkeys gids rkeys [] = []
reorder_rkeys gids rkeys (ep ∷ eps) = elim (match_rkey rkeys ep.gid 0 gids) [
  | none ↦ 0 ∷ reorder_rkeys gids rkeys eps
  | some rkey ↦ rkey ∷ reorder_rkeys gids rkeys eps
]

-- `remote_buffers[e.addr] = e`
unfoldable pub put_entry : BufferEntry → List BufferEntry → List BufferEntry
put_entry e [] = e ∷ []
put_entry e (d ∷ ds) = let rest = put_entry e ds in if d.addr == e.addr then e ∷ ds else d ∷ rest

-- The loop over the received buffers, into the map as it stands.
unfoldable pub store_buffers :
    List (List ℕ) → List Endpoint → List BufferEntry → List BufferEntry → List BufferEntry
unfolding reorder_rkeys put_entry
store_buffers gids eps [] stored = stored
store_buffers gids eps (e ∷ es) stored =
    store_buffers gids eps es
      (put_entry (record e { rkeys = reorder_rkeys gids e.rkeys eps }) stored)

-- The endpoints get the keys of the first buffer; an endpoint without a match keeps its key.
unfoldable pub update_endpoints : List (List ℕ) → List ℕ → List Endpoint → List Endpoint
unfolding match_rkey
update_endpoints gids rkeys [] = []
update_endpoints gids rkeys (ep ∷ eps) = elim (match_rkey rkeys ep.gid 0 gids) [
  | none ↦ ep ∷ update_endpoints gids rkeys eps
  | some rkey ↦ record ep { rkey = rkey } ∷ update_endpoints gids rkeys eps
]

unfoldable pub update_connection :
    List (List ℕ) → BufferEntry → List BufferEntry → ConnectionInfo → ConnectionInfo
unfolding store_buffers update_endpoints
update_connection gids first others conn = record {
  nic_endpoints = update_endpoints gids first.rkeys conn.nic_endpoints;
  remote_buffers = store_buffers gids conn.nic_endpoints (first ∷ others) [];
}

-- `reached` says that the socket connected and the request was sent; `conn` is the connection of the
-- host, if there is one. What a call that fails leaves in `out_info` is not modelled.
unfoldable pub query_remote_buffer :
    Bool → Bool → List ℕ → Option ConnectionInfo → ℤ × List BufferEntry × Option ConnectionInfo
unfolding recv_response update_connection
query_remote_buffer false reached stream conn = (err_context, [], conn)
query_remote_buffer true false stream conn = (err_connection, [], conn)
query_remote_buffer true true stream conn = elim (recv_response stream) [
  | none ↦ (err_connection, [], conn)
  | some ((gids, []), rest) ↦ (err_invalid_arg, [], conn)
  | some ((gids, first ∷ others), rest) ↦ (
    success,
    first ∷ others,
    elim conn [ none ↦ none | some c ↦ some (update_connection gids first others c) ],
  )
]

-- The first buffer on the NUMA node, and the first of all where there is none.
unfoldable pub find_numa : ℤ → BufferEntry → List BufferEntry → BufferEntry
find_numa numa_node fallback [] = fallback
find_numa numa_node fallback (e ∷ es) =
    let rest = find_numa numa_node fallback es in if eq_ℤ e.numa_node numa_node then e else rest

-- `none` is an `out_entry` that the call leaves alone.
unfoldable pub query_remote_buffer_by_numa :
    Bool
    → Bool
    → List ℕ
    → ℤ
    → Option ConnectionInfo
    → ℤ × Option BufferEntry × Option ConnectionInfo
unfolding query_remote_buffer find_numa
query_remote_buffer_by_numa initialized reached stream numa_node conn =
    let (ret, buffers, conn') = query_remote_buffer initialized reached stream conn in
    elim buffers [
      | [] ↦ (if eq_ℤ ret success then err_invalid_arg else ret, none, conn')
      | first ∷ others ↦
          if not (eq_ℤ ret success)
          then (ret, none, conn')
          else if nonneg numa_node
          then (success, some (find_numa numa_node first (first ∷ others)), conn')
          else (success, some first, conn')
    ]

-- `ConnectionInfo::getRkeyForAddr`: the search stops at the first buffer that has the address, and
-- falls back on the endpoint's key.
unfoldable pub find_remote : ℕ → List BufferEntry → Option BufferEntry
find_remote addr [] = none
find_remote addr (e ∷ es) =
    let rest = find_remote addr es in
    if leb e.addr addr && ltb addr (add64 e.addr e.length) then some e else rest

unfoldable pub endpoint_rkey : List Endpoint → ℕ → ℕ
endpoint_rkey [] nic_idx = 0
endpoint_rkey (ep ∷ eps) zero = ep.rkey
endpoint_rkey (ep ∷ eps) (suc nic_idx) = endpoint_rkey eps nic_idx

unfoldable pub get_rkey_for_addr : ConnectionInfo → ℕ → ℕ → ℕ
unfolding find_remote endpoint_rkey
get_rkey_for_addr conn remote_addr nic_idx = elim (find_remote remote_addr conn.remote_buffers) [
  | none ↦ endpoint_rkey conn.nic_endpoints nic_idx
  | some e ↦
      if ltb nic_idx (length e.rkeys)
      then get_or e.rkeys nic_idx 0
      else endpoint_rkey conn.nic_endpoints nic_idx
]
