-- ===== src/Worker/Pipeline/Tests.antt =====
-- A pipeline over a buffer of 1024 bytes: two pending chunks of 64 bytes, one copied, one in flight.
use ucl_mpcomm.Common.{pos, ℕ, ◌+◌, ◌≡◌, refl, true, false, none, some, [], ◌∷◌, ◌++◌, arith}
use ucl_mpcomm.Errors.{success}
use ucl_mpcomm.Chunks.{ChunkTable, scatter, chunk_table}
use ucl_mpcomm.Pxn.ProxyBuffer.{ProxyBuffer, align_256}
use ucl_mpcomm.Pxn.SpscQueue.{new_queue}
use ucl_mpcomm.Worker.{CopyingChunk, ProxyPipeline, Progress, WorkerState}
use ucl_mpcomm.Worker.Cache.{NicConnCache}
use ucl_mpcomm.Worker.Posting.{PostSetup}
use ucl_mpcomm.Worker.Pipeline.{Copies, CopyRequest, Sending, drain_inflight, cleanup, lengths_of}
use ucl_mpcomm.Worker.Pipeline.Held.{Holds, Drained, pipeline-Holds}

abbrev table : ChunkTable
table = chunk_table scatter 64 4096 (8192 ∷ []) (128 ∷ [])

abbrev buffer : ℕ → ℕ → ProxyBuffer
buffer alloc_offset free_offset = record {
  buffer = 65536;
  size = 1024;
  alloc_offset = alloc_offset;
  free_offset = free_offset;
}

abbrev copied_chunk : CopyingChunk
copied_chunk = record {
  chunk_idx = 1;
  request_id = 7;
  proxy_addr = 65792;
  length = 64;
  copy_done_flag = some 3;
  result_received = true;
}

abbrev pipeline : ProxyPipeline
pipeline = record {
  proxy_gpu_id = pos 1;
  nic_index = 1;
  pending_chunk_indices = [];
  copying_chunks = copied_chunk ∷ [];
  rdma_inflight = 64 ∷ [];
  rdma_completed_snapshot = 0;
  assigned_outstanding = 2;
  total_bytes_assigned = 128;
}

held_before :
    Holds (buffer 512 0) (lengths_of pipeline.copying_chunks ++ (pipeline.rdma_inflight ++ []))
unfolding align_256
held_before = (refl, omega arith)

pipeline-Holds_example :
    let drained = drain_inflight 1 pipeline (buffer 512 0) in
    let cleaned = cleanup pipeline (buffer 512 0) in
    Drained pipeline (buffer 512 0) 1 1 [] drained.0 drained.1
    × (cleaned.0.copying_chunks ≡ [])
    × (cleaned.0.rdma_inflight ≡ [])
    × Holds cleaned.1 []
pipeline-Holds_example =
    pipeline-Holds pipeline (buffer 512 0) 1 [] (omega arith) (omega arith) held_before

abbrev request : CopyRequest
request = record { src_addr = 0; dst_addr = 0; length = 0; request_id = 0 }

abbrev copies : Copies
copies = record {
  buffer = buffer 0 0;
  request_queue = new_queue (λ slot. request);
  next_request_id = 1;
  pending = 0 ∷ 1 ∷ [];
  copying = [];
}

abbrev setup : PostSetup
setup = record {
  max_outstanding_per_qp = 4;
  qps_per_connection = 1;
  num_active_pxn_transfers = 1;
  weigh = λ nvlink rdma. nvlink + rdma;
  ibv_post_send = λ qp wr. true;
}

abbrev idle : WorkerState
idle = record {
  worker_nic_posted = [];
  worker_nic_qp_posted = [];
  worker_nic_completed = [];
  worker_nic_qp_completed = [];
  nic_quarantine = [];
  transfers = λ h. none;
}

abbrev transfer : Progress
transfer = record {
  handle = 1;
  direction = scatter;
  host_list = (104 ∷ []) ∷ [];
  chunks = table;
  total_chunks = 2;
  next_chunk_idx = 2;
  candidate_nic_indices = 1 ∷ [];
  per_nic_posted = 0 ∷ 0 ∷ [];
  per_nic_qp_posted = (0 ∷ []) ∷ (0 ∷ []) ∷ [];
  per_nic_bytes = 0 ∷ 0 ∷ [];
  submitted = true;
  error_code = success;
  finished = false;
  total_completed = 0;
  per_nic_completed = 0 ∷ 0 ∷ [];
  per_nic_qp_completed = (0 ∷ []) ∷ (0 ∷ []) ∷ [];
  pxn_enabled = true;
  pxn_is_proxy_nic = false ∷ true ∷ [];
  pxn_proxy_pipelines = pipeline ∷ [];
}

abbrev sending : Sending
sending = record {
  worker = idle;
  ctx = transfer;
  copying = copied_chunk ∷ [];
  inflight = 64 ∷ [];
  requests = [];
  recycled = [];
}

abbrev cache : NicConnCache
cache key = some (record { remote_nic = 1; rkey = 8; lkey = 6; qps = some 21 ∷ []; num_qps = 1 })
