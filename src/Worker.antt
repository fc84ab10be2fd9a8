-- ===== src/Worker.antt =====
-- A worker thread in src/mpcomm.cpp: the state it shares between posting and completions, and
-- `pollAllNicsForWorker`, which routes what the NICs report to the transfers and puts a NIC that
-- reports an error in quarantine. The times it stores are left out.
pub mod Counters
pub mod Routing
pub mod Cache
pub mod Posting
pub mod Loop
pub mod Pipeline
mod Tests
use ucl_mpcomm.Common.{
  ltb, ◌==◌, if◌then◌else◌, length, get_or, ℤ, add64, ℕ, zero, suc, ◌-◌, Bool, true, false, ◌&&◌,
  ◌||◌, Option, none, some, List, [], ◌∷◌,
}
use ucl_mpcomm.Chunks.{ChunkTable, TransferDirection}
use ucl_mpcomm.Errors.{success, err_transfer}
use ucl_mpcomm.WrId.{decode_nic, decode_qp, decode_handle}

-- `PxnCopyingChunk`. A flag is a number, none the null pointer.
pub record CopyingChunk : Type 0 where
  pub chunk_idx : ℕ
  pub request_id : ℕ
  pub proxy_addr : ℕ
  pub length : ℕ
  pub copy_done_flag : Option ℕ
  pub result_received : Bool

-- `PxnProxyPipeline`, less its statistics. Of a chunk in flight only the length is kept.
pub record ProxyPipeline : Type 0 where
  pub proxy_gpu_id : ℤ
  pub nic_index : ℕ
  pub pending_chunk_indices : List ℕ
  pub copying_chunks : List CopyingChunk
  pub rdma_inflight : List ℕ
  pub rdma_completed_snapshot : ℕ
  pub assigned_outstanding : ℕ
  pub total_bytes_assigned : ℕ

-- The fields of `TransferContext` that posting and completions read or change.
pub record Progress : Type 0 where
  pub handle : ℕ
  pub direction : TransferDirection
  pub host_list : List (List ℕ)
  pub chunks : ChunkTable
  pub total_chunks : ℕ
  pub next_chunk_idx : ℕ
  pub candidate_nic_indices : List ℕ
  pub per_nic_posted : List ℕ
  pub per_nic_qp_posted : List (List ℕ)
  pub per_nic_bytes : List ℕ
  pub submitted : Bool
  pub error_code : ℤ
  pub finished : Bool
  pub total_completed : ℕ
  pub per_nic_completed : List ℕ
  pub per_nic_qp_completed : List (List ℕ)
  pub pxn_enabled : Bool
  pub pxn_is_proxy_nic : List Bool
  pub pxn_proxy_pipelines : List ProxyPipeline

-- `NicQuarantineState`
pub record NicQuarantineState : Type 0 where
  pub consecutive_errors : ℕ
  pub in_quarantine : Bool

-- `ibv_wc`, with whether its status is `IBV_WC_SUCCESS`.
pub record WorkCompletion : Type 0 where
  pub wr_id : ℕ
  pub ok : Bool

-- The transfers by handle: those of the worker's own list, which it searches first, are the same
-- objects as those of the node's map.
pub record WorkerState : Type 0 where
  pub worker_nic_posted : List ℕ
  pub worker_nic_qp_posted : List (List ℕ)
  pub worker_nic_completed : List ℕ
  pub worker_nic_qp_completed : List (List ℕ)
  pub nic_quarantine : List NicQuarantineState
  pub transfers : ℕ → Option Progress

-- `num_nics`, `qps_per_connection_`, and whether MPCOMM_FAULT_INJECT_TOLERATE is set.
pub record WorkerSetup : Type 0 where
  pub num_nics : ℕ
  pub qps_per_connection : ℕ
  pub tolerate : Bool

-- `counters[i]++`
unfoldable pub bump : List ℕ → ℕ → List ℕ
bump [] i = []
bump (c ∷ cs) zero = add64 c 1 ∷ cs
bump (c ∷ cs) (suc i) = c ∷ bump cs i

-- `counters[i][j]++`
unfoldable pub bump_2 : List (List ℕ) → ℕ → ℕ → List (List ℕ)
unfolding bump
bump_2 [] i j = []
bump_2 (row ∷ rows) zero j = bump row j ∷ rows
bump_2 (row ∷ rows) (suc i) j = row ∷ bump_2 rows i j

unfoldable pub count_worker : WorkerSetup → ℕ → ℕ → WorkerState → WorkerState
unfolding bump bump_2
count_worker setup nic qp s =
    if ltb nic setup.num_nics
    then record s {
      worker_nic_completed = bump s.worker_nic_completed nic;
      worker_nic_qp_completed =
          if ltb qp setup.qps_per_connection
          then bump_2 s.worker_nic_qp_completed nic qp
          else s.worker_nic_qp_completed;
    }
    else s

-- `nic` is the NIC that was polled.
unfoldable pub quarantine : ℕ → List NicQuarantineState → List NicQuarantineState
quarantine nic [] = []
quarantine zero (q ∷ qs) =
    record { consecutive_errors = add64 q.consecutive_errors 1; in_quarantine = true } ∷ qs
quarantine (suc nic) (q ∷ qs) = q ∷ quarantine nic qs

-- The first pipeline of the NIC has one chunk less outstanding.
unfoldable pub take_outstanding : ℕ → List ProxyPipeline → List ProxyPipeline
take_outstanding nic [] = []
take_outstanding nic (p ∷ ps) =
    let rest = take_outstanding nic ps in
    if p.nic_index == nic
    then record p { assigned_outstanding = p.assigned_outstanding - 1 } ∷ ps
    else p ∷ rest

-- A completion counted on its transfer.
unfoldable pub route : WorkerSetup → ℕ → ℕ → Progress → Progress
unfolding bump bump_2 take_outstanding
route setup nic qp ctx =
    let in_range = ltb nic setup.num_nics in
    record ctx {
      total_completed = add64 ctx.total_completed 1;
      per_nic_completed =
          if in_range then bump ctx.per_nic_completed nic else ctx.per_nic_completed;
      per_nic_qp_completed =
          if in_range && ltb qp setup.qps_per_connection
          then bump_2 ctx.per_nic_qp_completed nic qp
          else ctx.per_nic_qp_completed;
      pxn_proxy_pipelines =
          if in_range && (ctx.pxn_enabled && get_or ctx.pxn_is_proxy_nic nic false)
          then take_outstanding nic ctx.pxn_proxy_pipelines
          else ctx.pxn_proxy_pipelines;
    }

abbrev pub fail : Progress → Progress
fail ctx = record ctx { error_code = err_transfer; finished = true }

unfoldable pub put_progress : (ℕ → Option Progress) → ℕ → Progress → ℕ → Option Progress
put_progress transfers h ctx k = if k == h then some ctx else transfers k

-- The transfer's progress after the completion.
unfoldable pub advance : WorkerSetup → WorkCompletion → Progress → Progress
unfolding route
advance setup wc ctx =
    if wc.ok || setup.tolerate
    then route setup (decode_nic wc.wr_id) (decode_qp wc.wr_id) ctx
    else fail ctx

-- One completion. Without a transfer it is ignored, but for the worker's counters.
unfoldable pub complete : WorkerSetup → ℕ → WorkCompletion → WorkerState → WorkerState
unfolding put_progress advance
complete setup nic wc s =
    let completed_nic = decode_nic wc.wr_id in
    let completed_qp = decode_qp wc.wr_id in
    let wc_handle = decode_handle wc.wr_id in
    let counted = count_worker setup completed_nic completed_qp s in
    elim (s.transfers wc_handle) [
      | none ↦ counted
      | some ctx ↦ record counted {
        nic_quarantine =
            if wc.ok then counted.nic_quarantine else quarantine nic counted.nic_quarantine;
        transfers = put_progress s.transfers wc_handle (advance setup wc ctx);
      }
    ]

unfoldable pub complete_all : WorkerSetup → ℕ → List WorkCompletion → WorkerState → WorkerState
unfolding complete
complete_all setup nic [] s = s
complete_all setup nic (wc ∷ wcs) s = complete_all setup nic wcs (complete setup nic wc s)

-- `ibv_poll_cq` of each polled NIC: `none` where it fails. The first failure ends the call.
unfoldable pub poll_all_nics_for_worker :
    WorkerSetup → (ℕ → Option (List WorkCompletion)) → List ℕ → WorkerState → ℤ × WorkerState
unfolding complete_all
poll_all_nics_for_worker setup poll [] s = (success, s)
poll_all_nics_for_worker setup poll (nic ∷ nics) s = elim (poll nic) [
  | none ↦ (err_transfer, s)
  | some wcs ↦ poll_all_nics_for_worker setup poll nics (complete_all setup nic wcs s)
]
