-- ===== src/Connect.antt =====
-- Which NICs `MPComm::Impl::connect` of src/mpcomm.cpp links, and how it brings the queue pairs of a
-- link up: `extractNicSuffix`, the choice of the remote NICs, and the loop over the links. The bytes
-- of the exchange and the endpoints that it records are left out.
pub mod Laws
mod Tests
use ucl_mpcomm.Common.{
  leb, ◌==◌, if◌then◌else◌, length, ℤ, eq_ℤ, add64, ℕ, zero, suc, ◌+◌, ◌-◌, ◌*◌, min, ◌⊎◌, inl, inr,
  Bool, true, false, not, ◌&&◌, Option, none, some, List, [], ◌∷◌, ◌++◌, map,
}
use ucl_mpcomm.Errors.{success, err_context, err_connection}
use ucl_mpcomm.QueuePair.{
  RemoteEndpointInfo, NicPort, QpAttr, modify_qp_to_init, modify_qp_to_rtr, modify_qp_to_rts,
}

unfoldable pub all_digits : List ℕ → Bool
all_digits [] = true
all_digits (c ∷ cs) = (leb 48 c && leb c 57) && all_digits cs

unfoldable pub trailing_digits : List ℕ → List ℕ
unfolding all_digits
trailing_digits [] = []
trailing_digits (c ∷ cs) =
    let rest = trailing_digits cs in if all_digits (c ∷ cs) then c ∷ cs else rest

-- `stoi` of digits, whose number fits an `int`.
unfoldable pub decimal : ℕ → List ℕ → ℕ
decimal n [] = n
decimal n (c ∷ cs) = decimal (n * 10 + (c - 48)) cs

-- `none` is -1: the name does not end in a digit.
unfoldable pub extract_nic_suffix : List ℕ → Option ℕ
unfolding trailing_digits decimal
extract_nic_suffix name = elim (trailing_digits name) [
  | [] ↦ none
  | c ∷ cs ↦ some (decimal 0 (c ∷ cs))
]

-- The suffix on the other NUMA node; of -1 it is 3.
unfoldable pub cross_numa_suffix : Option ℕ → ℕ
cross_numa_suffix none = 3
cross_numa_suffix (some s) = if leb 4 s then s - 4 else s + 4

abbrev pub has_suffix : Option ℕ → ℕ → Bool
has_suffix none s = false
has_suffix (some t) s = t == s

-- The first remote NIC with a suffix, from an index on.
unfoldable pub first_with : ℕ → List (Option ℕ) → ℕ → List ℕ
first_with s [] i = []
first_with s (t ∷ ts) i =
    let rest = first_with s ts (suc i) in if has_suffix t s then i ∷ [] else rest

abbrev pub same_suffix : Option ℕ → List (Option ℕ) → List ℕ
same_suffix none remote = []
same_suffix (some s) remote = first_with s remote 0

-- At most two NICs of the other host.
unfoldable pub target_remote_nics : List (Option ℕ) → Option ℕ → List ℕ
unfolding first_with cross_numa_suffix
target_remote_nics remote local_suffix =
    same_suffix local_suffix remote ++ first_with (cross_numa_suffix local_suffix) remote 0

-- The libraries and the peer: `create_qp` is none where ibv_create_qp fails, `exchange` what the
-- peer sends for a queue pair after ours is sent, none where a socket call fails, and `send_status`
-- whether the final byte goes out.
pub record Network : Type 0 where
  pub port_of : ℕ → NicPort
  pub create_qp : ℕ → ℕ → ℕ → Option ℕ
  pub ibv_modify_qp : ℕ → List QpAttr → QpAttr → Bool
  pub exchange : ℕ → ℕ → ℕ → Option RemoteEndpointInfo
  pub send_status : ℕ → ℕ → ℕ → Bool

-- The links of a host: the pairs of NICs, and the queue pairs of each, as `qp_map` files them.
pub record Links : Type 0 where
  pub local_to_remote_nic_map : ℕ → List ℕ
  pub qp_map : ℕ → ℕ → List ℕ
  pub total_connections : ℕ
  pub skipped_connections : ℕ

-- How bringing queue pairs up ends: `refused` skips the link, `fatal` ends the call.
pub data Attempt : Type 0 where
  ready : List ℕ → Attempt
  refused : Attempt
  fatal : ℤ → Attempt

-- The first attempt that is not ready decides.
unfoldable pub and_then : Attempt → Attempt → Attempt
and_then refused later = refused
and_then (fatal code) later = fatal code
and_then (ready qps) refused = refused
and_then (ready qps) (fatal code) = fatal code
and_then (ready qps) (ready qps') = ready (qps ++ qps')

module _ (net : Network) (local_nic remote_nic : ℕ) where
  unfoldable pub bring_up : ℕ → Attempt
  bring_up qp_idx = elim (net.create_qp local_nic remote_nic qp_idx) [
    | none ↦ fatal err_context
    | some qp ↦
        let in_init = modify_qp_to_init net.ibv_modify_qp (net.port_of local_nic) qp [] in
        if not (eq_ℤ in_init.0 success)
        then fatal err_connection
        else elim (net.exchange local_nic remote_nic qp_idx) [
          | none ↦ fatal err_connection
          | some remote_info ↦
              let in_rtr =
                modify_qp_to_rtr net.ibv_modify_qp (net.port_of local_nic) qp remote_info
                  in_init.1 in
              let in_rts = modify_qp_to_rts net.ibv_modify_qp qp in_rtr.1 in
              if not (eq_ℤ in_rtr.0 success)
              then refused
              else if not (eq_ℤ in_rts.0 success)
              then refused
              else if net.send_status local_nic remote_nic qp_idx
              then ready (qp ∷ [])
              else fatal err_connection
        ]
  ]

  -- The queue pairs from an index on, so many.
  unfoldable pub bring_up_all : ℕ → ℕ → Attempt
  unfolding bring_up and_then
  bring_up_all zero qp_idx = ready []
  bring_up_all (suc n) qp_idx = and_then (bring_up qp_idx) (bring_up_all n (suc qp_idx))

unfoldable pub erase : ℕ → List ℕ → List ℕ
erase r [] = []
erase r (x ∷ xs) = let rest = erase r xs in if x == r then rest else x ∷ rest

abbrev pub set_targets : (ℕ → List ℕ) → ℕ → List ℕ → ℕ → List ℕ
set_targets m l targets k = if k == l then targets else m k

-- How linking ends: with an error code or in success. In both cases it leaves the links so far; after
-- an error the host keeps only the queue pairs of these, in `qp_map`.
abbrev pub LinkOutcome : Type 0
LinkOutcome = (ℤ × Links) ⊎ Links

-- A link that came up is filed, one that was refused is struck from the map.
unfoldable pub file_link : ℕ → ℕ → Attempt → Links → LinkOutcome
unfolding erase
file_link l r (ready qps) s = inr (record s {
  qp_map = λ k j. if (k == l) && (j == r) then qps else s.qp_map k j;
  total_connections = add64 s.total_connections 1;
})
file_link l r refused s = inr (record s {
  local_to_remote_nic_map =
      set_targets s.local_to_remote_nic_map l (erase r (s.local_to_remote_nic_map l));
  skipped_connections = add64 s.skipped_connections 1;
})
file_link l r (fatal code) s = inl (code, s)

-- The rest of the links, unless the call ends.
unfoldable pub and_link : LinkOutcome → (Links → LinkOutcome) → LinkOutcome
and_link (inl e) rest = inl e
and_link (inr s) rest = rest s

unfoldable pub link_targets : Network → ℕ → ℕ → List ℕ → Links → LinkOutcome
unfolding bring_up_all file_link and_link
link_targets net actual_qps l [] s = inr s
link_targets net actual_qps l (r ∷ rs) s =
    and_link (file_link l r (bring_up_all net l r actual_qps 0) s)
      (λ s'. link_targets net actual_qps l rs s')

-- The local NICs from an index on; one without remote NICs is skipped.
unfoldable pub link_nics : Network → ℕ → List (Option ℕ) → ℕ → List (Option ℕ) → Links → LinkOutcome
unfolding target_remote_nics link_targets
link_nics net actual_qps remote l [] s = inr s
link_nics net actual_qps remote l (suffix ∷ suffixes) s =
    let targets = target_remote_nics remote suffix in
    and_link
      (link_targets net actual_qps l targets (record s {
        local_to_remote_nic_map =
            if length targets == 0
            then s.local_to_remote_nic_map
            else set_targets s.local_to_remote_nic_map l targets;
      }))
      (λ s'. link_nics net actual_qps remote (suc l) suffixes s')

-- After the hosts told each other the names of their NICs and their queue pairs per connection.
-- Without a link the call fails, and else the links are those of the host from now on. After an
-- error its connections are as before.
unfoldable pub link_hosts :
    Network → ℕ → ℕ → List (List ℕ) → List (List ℕ) → (ℕ → ℕ → List ℕ) → LinkOutcome
unfolding link_nics extract_nic_suffix and_link
link_hosts net qps remote_qps local_names remote_names qp_map =
    and_link
      (link_nics net (min qps remote_qps) (map extract_nic_suffix remote_names) 0
        (map extract_nic_suffix local_names)
        (record {
          local_to_remote_nic_map = λ l. [];
          qp_map = qp_map;
          total_connections = 0;
          skipped_connections = 0;
        }))
      (λ s. if s.total_connections == 0 then inl (err_connection, s) else inr s)
