-- ===== src/Worker/Loop/Tests.antt =====
-- A worker with one active transfer, handle 1, and one that is new, handle 2.
use ucl_mpcomm.Common.{
  ◌==◌, if◌then◌else◌, ℕ, ◌+◌, ◌≤◌, ◌<◌, ◌≡◌, refl, true, false, Option, none, some, List, [], ◌∷◌,
  arith,
}
use ucl_mpcomm.Errors.{success}
use ucl_mpcomm.Chunks.{gather, chunk_table}
use ucl_mpcomm.WrId.{encode}
use ucl_mpcomm.Worker.{Progress, WorkCompletion}
use ucl_mpcomm.Worker.Loop.{Loop, LoopSetup, is_active_pxn, count_active, drain, finish}
use ucl_mpcomm.Worker.Loop.Drain.{occurrences, Drained, drain-Drained}
use ucl_mpcomm.Worker.Loop.Finish.{Settled, finish-Settled}
use ucl_mpcomm.Worker.Loop.Deliver.{AllAnswer, reported, Over, settle-success}
use ucl_mpcomm.Worker.{poll_all_nics_for_worker}
use ucl_mpcomm.Worker.Routing.{successes, failures}
use ucl_mpcomm.WrId.{decode_handle}

abbrev setup : LoopSetup
setup = record {
  posting = record {
    max_outstanding_per_qp = 4;
    qps_per_connection = 1;
    num_active_pxn_transfers = 1;
    weigh = λ nvlink rdma. nvlink + rdma;
    ibv_post_send = λ qp wr. true;
  };
  worker = record { num_nics = 2; qps_per_connection = 1; tolerate = false };
  fabric = record {
    num_nic_contexts = 2;
    memory_regions = [];
    connections = λ host_id. none;
    qp_map = λ nic host_id remote. [];
  };
}

abbrev transfer : ℕ → ℕ → Progress
transfer handle total_completed = record {
  handle = handle;
  direction = gather;
  host_list = (104 ∷ []) ∷ [];
  chunks = chunk_table gather 64 4096 (8192 ∷ []) (100 ∷ []);
  total_chunks = 2;
  next_chunk_idx = 2;
  candidate_nic_indices = 1 ∷ [];
  per_nic_posted = 0 ∷ 2 ∷ [];
  per_nic_qp_posted = (0 ∷ []) ∷ (2 ∷ []) ∷ [];
  per_nic_bytes = 0 ∷ 100 ∷ [];
  submitted = true;
  error_code = success;
  finished = false;
  total_completed = total_completed;
  per_nic_completed = 0 ∷ total_completed ∷ [];
  per_nic_qp_completed = (0 ∷ []) ∷ (total_completed ∷ []) ∷ [];
  pxn_enabled = false;
  pxn_is_proxy_nic = [];
  pxn_proxy_pipelines = [];
}

abbrev state : ℕ → Loop
state total_completed = record {
  active_contexts = record { handle = 1; cache = λ key. none } ∷ [];
  pending_pxn_handles = [];
  poll_nic_indices = 1 ∷ [];
  worker = record {
    worker_nic_posted = 0 ∷ 2 ∷ [];
    worker_nic_qp_posted = (0 ∷ []) ∷ (2 ∷ []) ∷ [];
    worker_nic_completed = 0 ∷ total_completed ∷ [];
    worker_nic_qp_completed = (0 ∷ []) ∷ (total_completed ∷ []) ∷ [];
    nic_quarantine = [];
    transfers = λ h.
        if h == 1
        then some (transfer 1 total_completed)
        else if h == 2
        then some (transfer 2 0)
        else none;
  };
}

few_active : count_active is_active_pxn (state 1).worker.transfers (state 1).active_contexts ≤ 5
unfolding count_active
few_active = omega arith

none_finished :
    (k : ℕ) (ctx : Progress)
    → 0 < occurrences k (state 1).pending_pxn_handles + occurrences k (2 ∷ [])
    → (state 1).worker.transfers k ≡ some ctx
    → ctx.finished ≡ false
none_finished k ctx p e = ground (arith, p, e)

drain-Drained_example : Drained (2 ∷ []) (state 1) (drain setup (2 ∷ []) (state 1))
drain-Drained_example = drain-Drained setup (2 ∷ []) (state 1) few_active none_finished

finish-Settled_example :
    Settled 1
      (transfer 1 2)
      (state 2).active_contexts
      (finish (state 2)).active_contexts
      (finish (state 2)).worker.transfers
finish-Settled_example = finish-Settled (state 2) 1 (transfer 1 2) refl

abbrev report : ℕ → Option (List WorkCompletion)
report nic = some (record { wr_id = encode 1 0 1 1; ok = true } ∷ [])

last_chunk_ok : failures 1 (reported report (1 ∷ [])) ≡ 0
unfolding encode decode_handle
last_chunk_ok = refl

last_chunk_counts : 2 ≤ 1 + successes 1 (reported report (1 ∷ []))
unfolding encode decode_handle
last_chunk_counts = omega arith

report_answers : AllAnswer report (1 ∷ [])
report_answers = ((λ e. absurd (ground (arith, e))), tt)

settle-success_example :
    let r = poll_all_nics_for_worker setup.worker report (1 ∷ []) (state 1).worker in
    (r.0 ≡ success) × Over success 1 (finish (record (state 1) { worker = r.1 }))
settle-success_example =
    settle-success setup.worker refl report 1 (state 1) (transfer 1 1) refl refl refl report_answers
      (omega arith) last_chunk_ok last_chunk_counts
