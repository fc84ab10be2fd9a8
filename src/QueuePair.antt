-- ===== src/QueuePair.antt =====
-- Queue pairs in src/mpcomm.cpp: the steps `modifyQPToInit`, `modifyQPToRTR` and `modifyQPToRTS`,
-- and the text keys that `qp_map` files them under. Constants of the attributes are left out.
pub mod Keys
pub mod Steps
use ucl_mpcomm.Common.{
  ◌==◌, if◌then◌else◌, length, ℤ, ℕ, Bool, Option, none, some, List, [], ◌∷◌, ◌++◌,
}
use ucl_mpcomm.Errors.{success, err_connection}
use ucl_mpcomm.Gid.{colon, string_to_gid}

pub record RemoteEndpointInfo : Type 0 where
  pub gid : List ℕ
  pub lid : ℕ
  pub qp_num : ℕ

-- The fields of `NicContext` that the steps read.
pub record NicPort : Type 0 where
  pub port : ℕ
  pub gid_index : ℕ

-- What a change of state sets. Without a readable GID its destination is undetermined.
pub data QpAttr : Type 0 where
  reset : QpAttr
  init : ℕ → QpAttr
  rtr : NicPort → Option (List ℕ) → ℕ → ℕ → QpAttr
  rts : QpAttr

-- `ibv_modify_qp` tells whether it makes a change to a queue pair, given those that it made before,
-- the latest first; a step returns its code with the changes made by then.
module _ (ibv_modify_qp : ℕ → List QpAttr → QpAttr → Bool) where
  unfoldable pub change : ℕ → List QpAttr → QpAttr → ℤ × List QpAttr
  change qp done attr =
      if ibv_modify_qp qp done attr then (success, attr ∷ done) else (err_connection, done)

  unfoldable pub modify_qp_to_init : NicPort → ℕ → List QpAttr → ℤ × List QpAttr
  modify_qp_to_init nic qp done = change qp done (init nic.port)

  unfoldable pub modify_qp_to_rtr : NicPort → ℕ → RemoteEndpointInfo → List QpAttr → ℤ × List QpAttr
  modify_qp_to_rtr nic qp remote done =
      change qp done (rtr nic (string_to_gid remote.gid) remote.lid remote.qp_num)

  unfoldable pub modify_qp_to_rts : ℕ → List QpAttr → ℤ × List QpAttr
  modify_qp_to_rts qp done = change qp done rts

-- "host_id:local_nic:remote_nic". `to_string` prints a number.
unfoldable pub qp_key : (ℕ → List ℕ) → List ℕ → ℕ → ℕ → List ℕ
qp_key to_string host_id local_nic remote_nic =
    host_id ++ (colon ∷ (to_string local_nic ++ (colon ∷ to_string remote_nic)))

-- What is before and behind the last colon.
unfoldable pub split_last : List ℕ → Option (List ℕ × List ℕ)
split_last [] = none
split_last (c ∷ cs) = elim (split_last cs) [
  | some (before, behind) ↦ some (c ∷ before, behind)
  | none ↦ if c == colon then some ([], cs) else none
]

-- The host id of a key, which may have colons itself. A key without two colons is taken whole, but
-- one that begins with its only colon gives nothing, as `rfind` then starts at the front.
unfoldable pub key_host : List ℕ → List ℕ
unfolding split_last
key_host key = elim (split_last key) [
  | none ↦ key
  | some (before, behind) ↦ elim (split_last before) [
    | some (host_id, local) ↦ host_id
    | none ↦ if length before == 0 then [] else key
  ]
]

-- The text of the remote NIC, which `stoul` reads.
unfoldable pub key_remote : List ℕ → List ℕ
unfolding split_last
key_remote key = elim (split_last key) [ none ↦ key | some (before, behind) ↦ behind ]
