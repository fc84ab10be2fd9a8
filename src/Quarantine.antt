-- ===== src/Quarantine.antt =====
-- Readmission of NICs in src/mpcomm.cpp: `probeQuarantinedNics`, which a worker calls in each round.
pub mod Laws
mod Tests
use ucl_mpcomm.Common.{
  ltb, if◌then◌else◌, eq_ℤ, add64, ℕ, zero, suc, Bool, true, false, not, ◌&&◌, Option, none, some,
  List, [], ◌∷◌,
}
use ucl_mpcomm.Errors.{success}
use ucl_mpcomm.QueuePair.{
  RemoteEndpointInfo, NicPort, QpAttr, reset, change, modify_qp_to_init, modify_qp_to_rtr,
  modify_qp_to_rts, key_host, key_remote,
}
use ucl_mpcomm.Worker.{NicQuarantineState}

-- The NIC's quarantine state with its start, in nanoseconds.
pub record Quarantined : Type 0 where
  pub state : NicQuarantineState
  pub quarantine_since : ℕ

-- What the probe asks. `waited` is its test on the seconds since the start, a double; `port_active`
-- is `ibv_query_port` with the state it finds; `stoul` and the verbs calls are those of the
-- libraries; `connections` are the endpoints of each known host.
pub record Probe : Type 0 where
  pub interval_loops : ℕ
  pub waited : ℕ → ℕ → Bool
  pub port_active : ℕ → Bool
  pub stoul : List ℕ → ℕ
  pub connections : List ℕ → Option (List RemoteEndpointInfo)
  pub ibv_query_qp : ℕ → Option ℕ
  pub ibv_modify_qp : ℕ → List QpAttr → QpAttr → Bool

abbrev pub no_endpoint : RemoteEndpointInfo
no_endpoint = record { gid = []; lid = 0; qp_num = 0 }

-- The endpoint at an index.
unfoldable pub endpoint_at : List RemoteEndpointInfo → ℕ → Option RemoteEndpointInfo
endpoint_at [] i = none
endpoint_at (e ∷ es) zero = some e
endpoint_at (e ∷ es) (suc i) = endpoint_at es i

-- The endpoint that a queue pair is connected to, with the queue pair number that it has in use.
unfoldable pub endpoint_for : Probe → List ℕ → ℕ → ℕ → RemoteEndpointInfo
unfolding endpoint_at
endpoint_for p host_id remote_nic qp = elim (p.connections host_id) [
  | none ↦ no_endpoint
  | some endpoints ↦ elim (endpoint_at endpoints remote_nic) [
    | none ↦ no_endpoint
    | some rinfo ↦ elim (p.ibv_query_qp qp) [
      | none ↦ rinfo
      | some dest_qp_num ↦ record rinfo { qp_num = dest_qp_num }
    ]
  ]
]

-- Each step counts only if those before it succeed; the changes are those of this rebuild.
unfoldable pub rebuild_qp : Probe → NicPort → RemoteEndpointInfo → ℕ → Bool
rebuild_qp p nic rinfo qp =
    let in_reset = change p.ibv_modify_qp qp [] reset in
    let in_init = modify_qp_to_init p.ibv_modify_qp nic qp in_reset.1 in
    let in_rtr = modify_qp_to_rtr p.ibv_modify_qp nic qp rinfo in_init.1 in
    let in_rts = modify_qp_to_rts p.ibv_modify_qp qp in_rtr.1 in
    eq_ℤ in_reset.0 success
    && (eq_ℤ in_init.0 success && (eq_ℤ in_rtr.0 success && eq_ℤ in_rts.0 success))

unfoldable pub rebuild_list : Probe → NicPort → List ℕ → ℕ → List ℕ → Bool
unfolding rebuild_qp
rebuild_list p nic host_id remote_nic [] = true
rebuild_list p nic host_id remote_nic (qp ∷ qps) =
    rebuild_qp p nic (endpoint_for p host_id remote_nic qp) qp
    && rebuild_list p nic host_id remote_nic qps

-- All queue pairs of the NIC; the map is listed in its unspecified order.
unfoldable pub rebuild_all : Probe → NicPort → List (List ℕ × List ℕ) → Bool
unfolding rebuild_list
rebuild_all p nic [] = true
rebuild_all p nic ((key, qps) ∷ rest) =
    rebuild_list p nic (key_host key) (p.stoul (key_remote key)) qps && rebuild_all p nic rest

-- A NIC with what the probe uses of it.
pub record ProbedNic : Type 0 where
  pub port : NicPort
  pub qp_map : List (List ℕ × List ℕ)
  pub quarantine : Quarantined

unfoldable pub probe_nic : Probe → ℕ → ℕ → ProbedNic → Quarantined
probe_nic p now nic n =
    let q = n.quarantine in
    if not q.state.in_quarantine
    then q
    else if not (p.waited now q.quarantine_since)
    then q
    else if not (p.port_active nic)
    then record q { quarantine_since = now }
    else if rebuild_all p n.port n.qp_map
    then record q { state = record { consecutive_errors = 0; in_quarantine = false } }
    else record q { quarantine_since = now }

unfoldable pub probe_from : Probe → ℕ → ℕ → List ProbedNic → List ProbedNic
unfolding probe_nic
probe_from p now nic [] = []
probe_from p now nic (n ∷ ns) =
    record n { quarantine = probe_nic p now nic n } ∷ probe_from p now (suc nic) ns

-- The counter of calls, and the NICs after the call.
unfoldable pub probe_quarantined_nics : Probe → ℕ → ℕ → List ProbedNic → ℕ × List ProbedNic
unfolding probe_from
probe_quarantined_nics p now probe_counter nics =
    let counter = add64 probe_counter 1 in
    if ltb counter p.interval_loops then (counter, nics) else (0, probe_from p now 0 nics)
