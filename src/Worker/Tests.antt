-- ===== src/Worker/Tests.antt =====
-- One NIC reports a success and an error for transfer 1, and a success for one that is gone.
use ucl_mpcomm.Common.{
  ◌==◌, if◌then◌else◌, ℕ, ◌*◌, ◌^◌, ◌≡◌, refl, ◌≢◌, true, false, none, some, List, [], ◌∷◌, arith,
}
use ucl_mpcomm.Chunks.{gather, chunk_table}
use ucl_mpcomm.Errors.{success}
use ucl_mpcomm.WrId.{encode}
use ucl_mpcomm.Worker.{Progress, WorkCompletion, WorkerState, WorkerSetup, complete, complete_all}
use ucl_mpcomm.Worker.Routing.{
  InRange, CountedOn, successes, failures, Advanced, complete_all-Advanced, complete-encode,
}

abbrev setup : WorkerSetup
setup = record { num_nics = 2; qps_per_connection = 1; tolerate = false }

abbrev fresh : Progress
fresh = record {
  handle = 1;
  direction = gather;
  host_list = (104 ∷ []) ∷ [];
  chunks = chunk_table gather 64 4096 (8192 ∷ []) (100 ∷ []);
  total_chunks = 2;
  next_chunk_idx = 0;
  candidate_nic_indices = 0 ∷ 1 ∷ [];
  per_nic_posted = 0 ∷ 0 ∷ [];
  per_nic_qp_posted = (0 ∷ []) ∷ (0 ∷ []) ∷ [];
  per_nic_bytes = 0 ∷ 0 ∷ [];
  submitted = true;
  error_code = success;
  finished = false;
  total_completed = 0;
  per_nic_completed = 0 ∷ 0 ∷ [];
  per_nic_qp_completed = (0 ∷ []) ∷ (0 ∷ []) ∷ [];
  pxn_enabled = false;
  pxn_is_proxy_nic = [];
  pxn_proxy_pipelines = [];
}

abbrev state : WorkerState
state = record {
  worker_nic_posted = 2 ∷ 0 ∷ [];
  worker_nic_qp_posted = (2 ∷ []) ∷ (0 ∷ []) ∷ [];
  worker_nic_completed = 0 ∷ 0 ∷ [];
  worker_nic_qp_completed = (0 ∷ []) ∷ (0 ∷ []) ∷ [];
  nic_quarantine = record { consecutive_errors = 0; in_quarantine = false } ∷ [];
  transfers = λ h. if h == 1 then some fresh else none;
}

-- Ids with NIC 0, queue pair 0 and chunk 0.
abbrev reports : List WorkCompletion
reports =
    record { wr_id = 2 ^ 32; ok = true }
    ∷ record { wr_id = 2 ^ 32; ok = false }
    ∷ record { wr_id = 7 * 2 ^ 32; ok = true }
    ∷ []

complete_all-Advanced_example :
    (ctx' : Progress) × ((complete_all setup 0 reports state).transfers 1 ≡ some ctx')
    × Advanced (successes 1 reports) (failures 1 reports) fresh ctx'
complete_all-Advanced_example =
    complete_all-Advanced setup refl 0 1 reports state fresh refl (omega arith)

in_range : InRange setup 1 0 fresh
in_range = record {
  nic_used = omega arith;
  qp_used = omega arith;
  nic_counted = omega arith;
  row_counted = omega arith;
  qp_counted = omega arith;
}

complete-encode_example :
    let s' = complete setup 1 (record { wr_id = encode 1 0 1 9; ok = true }) state in
    (ctx' : Progress) × (s'.transfers 1 ≡ some ctx')
    × CountedOn 1 0 fresh ctx'
    × ((k : ℕ) → k ≢ 1 → s'.transfers k ≡ state.transfers k)
complete-encode_example =
    complete-encode setup 1 state fresh 1 0 1 9 (omega arith) (omega arith) (omega arith) in_range
      refl
