-- ===== src/Quarantine/Tests.antt =====
-- A NIC with one queue pair leaves quarantine in the second call of the probe.
use ucl_mpcomm.Common.{
  ltb, length, get_elem?, replicate, ℕ, zero, suc, ◌-◌, ◌≡◌, refl, true, none, some, List, [], ◌∷◌,
  arith,
}
use ucl_mpcomm.QueuePair.{qp_key}
use ucl_mpcomm.QueuePair.Keys.{NoColon, key-qp_key}
use ucl_mpcomm.QueuePair.{key_host, key_remote}
use ucl_mpcomm.Quarantine.{Quarantined, Probe, ProbedNic, probe_quarantined_nics}
use ucl_mpcomm.Quarantine.Laws.{Probed, probe_quarantined_nics-Probed}

-- A number in unary, as so many digits "1".
abbrev to_string : ℕ → List ℕ
to_string n = replicate n 49

abbrev probe : Probe
probe = record {
  interval_loops = 2;
  waited = λ now since. ltb 5 (now - since);
  port_active = λ nic. true;
  stoul = length;
  connections = λ host_id. some (record { gid = []; lid = 7; qp_num = 30 } ∷ []);
  ibv_query_qp = λ qp. none;
  ibv_modify_qp = λ qp done attr. true;
}

-- The host "a:1", whose name has a colon.
abbrev host : List ℕ
host = 97 ∷ 58 ∷ 49 ∷ []

abbrev nic : ProbedNic
nic = record {
  port = record { port = 1; gid_index = 3 };
  qp_map = (qp_key to_string host 0 0, 20 ∷ []) ∷ [];
  quarantine = record {
    state = record { consecutive_errors = 4; in_quarantine = true };
    quarantine_since = 10;
  };
}

probe_quarantined_nics-Probed_example :
    (after : Quarantined) × (get_elem? (probe_quarantined_nics probe 100 1 (nic ∷ [])).1 0
      ≡ some (record nic { quarantine = after }))
    × Probed probe 100 0 nic after
probe_quarantined_nics-Probed_example =
    probe_quarantined_nics-Probed probe 100 1 (nic ∷ []) 0 nic refl

no_colon : (n : ℕ) → NoColon (to_string n)
no_colon zero = tt
no_colon (suc n) = (λ e. ground (arith, e), no_colon n)

key-qp_key_example :
    (key_host (qp_key to_string host 1 2) ≡ host)
    × (key_remote (qp_key to_string host 1 2) ≡ to_string 2)
key-qp_key_example = key-qp_key to_string host 1 2 no_colon
