-- ===== src/Worker/Pipeline.antt =====
-- The proxy pipelines of a transfer in src/mpcomm.cpp: `advance_pxn_copies_fn`, which moves pending
-- chunks into the proxy buffer, `dispatch_pxn_copy_results_fn`, which takes the results of copies,
-- `post_pxn_proxy_chunks_fn`, which sends copied chunks, and `cleanupPxnContextState`. Statistics
-- and times are left out; each function is given for one pipeline and its proxy buffer.
pub mod Held
pub mod Send
pub mod Submit
mod Tests
use ucl_mpcomm.Common.{
  leb, ◌==◌, if◌then◌else◌, length, take, drop, add64, sub64, ℕ, ◌%◌, ◌^◌, min, Bool, true, false,
  not, ◌&&◌, ◌||◌, Option, none, some, List, [], ◌∷◌, ◌++◌,
}
use ucl_mpcomm.Errors.{err_transfer}
use ucl_mpcomm.Chunks.{ChunkTable, get_chunk}
use ucl_mpcomm.Pxn.ProxyBuffer.{ProxyBuffer, try_alloc, free}
use ucl_mpcomm.Pxn.SpscQueue.{SpscQueue, try_push}
use ucl_mpcomm.WrId.{encode}
use ucl_mpcomm.Worker.{CopyingChunk, ProxyPipeline, Progress, WorkerState, bump, bump_2}
use ucl_mpcomm.Worker.Cache.{NicConnCache, cached, cache_key}
use ucl_mpcomm.Worker.Posting.{
  SendWr, rdma_write, PostSetup, max_outstanding_per_nic, nic_outstanding, select_qp, bump_by, stop,
  count_posted,
}

-- `PxnCopyRequest`, less the CUDA contexts.
pub record CopyRequest : Type 0 where
  pub src_addr : ℕ
  pub dst_addr : ℕ
  pub length : ℕ
  pub request_id : ℕ

-- What the submission of copies changes.
pub record Copies : Type 0 where
  pub buffer : ProxyBuffer
  pub request_queue : SpscQueue CopyRequest
  pub next_request_id : ℕ
  pub pending : List ℕ
  pub copying : List CopyingChunk

-- The loop over the pending chunks of a pipeline; `capacity` is that of the request queue. A block
-- whose request finds the queue full is given back.
unfoldable pub submit_pending : ℕ → ChunkTable → List ℕ → Copies → Copies
submit_pending capacity table [] c = c
submit_pending capacity table (ci ∷ rest) c =
    let ck = get_chunk table ci in
    let grant = try_alloc ck.length c.buffer in
    let pushed =
      try_push capacity
        (record {
          src_addr = ck.local_addr;
          dst_addr = grant.0;
          length = ck.length;
          request_id = c.next_request_id;
        })
        c.request_queue in
    let submitted : Copies = record {
      buffer = grant.1;
      request_queue = pushed.1;
      next_request_id = add64 c.next_request_id 1;
      pending = rest;
      copying =
          c.copying
          ++ (record {
            chunk_idx = ci;
            request_id = c.next_request_id;
            proxy_addr = grant.0;
            length = ck.length;
            copy_done_flag = none;
            result_received = false;
          }
              ∷ []);
    } in
    let after = submit_pending capacity table rest submitted in
    if grant.0 == 0
    then c
    else if pushed.0
    then after
    else record c { buffer = free ck.length grant.1; next_request_id = add64 c.next_request_id 1 }

-- `PxnCopyResult`, less its times.
pub record CopyResult : Type 0 where
  pub request_id : ℕ
  pub copy_done_flag : Option ℕ
  pub success : Bool

-- The first chunk of a pipeline that waits for the result; `none` where no chunk does.
unfoldable pub receive : CopyResult → List CopyingChunk → Option (List CopyingChunk)
receive cr [] = none
receive cr (cc ∷ ccs) =
    if (cc.request_id == cr.request_id) && not cc.result_received
    then some (record cc { copy_done_flag = cr.copy_done_flag; result_received = true } ∷ ccs)
    else elim (receive cr ccs) [ none ↦ none | some ccs' ↦ some (cc ∷ ccs') ]

-- The first pipeline of a transfer that has such a chunk.
unfoldable pub receive_in : CopyResult → List ProxyPipeline → Option (List ProxyPipeline)
unfolding receive
receive_in cr [] = none
receive_in cr (p ∷ ps) = elim (receive cr p.copying_chunks) [
  | some ccs ↦ some (record p { copying_chunks = ccs } ∷ ps)
  | none ↦ elim (receive_in cr ps) [ none ↦ none | some ps' ↦ some (p ∷ ps') ]
]

-- A transfer takes a result; a copy that failed ends it.
unfoldable pub dispatch_to : CopyResult → Progress → Option Progress
unfolding receive_in
dispatch_to cr ctx =
    if ctx.pxn_enabled
    then elim (receive_in cr ctx.pxn_proxy_pipelines) [
      | none ↦ none
      | some ps ↦
          let taken = record ctx { pxn_proxy_pipelines = ps } in
          some (if cr.success then taken else stop err_transfer taken)
    ]
    else none

-- `free` of each length in turn.
unfoldable pub free_each : List ℕ → ProxyBuffer → ProxyBuffer
free_each [] b = b
free_each (len ∷ lens) b = free_each lens (free len b)

-- Step 0: as many blocks in flight are freed as requests of the transfer completed on the NIC since
-- the last look.
unfoldable pub drain_inflight : ℕ → ProxyPipeline → ProxyBuffer → ProxyPipeline × ProxyBuffer
unfolding free_each
drain_inflight cur_completed p b =
    let to_free = min (sub64 cur_completed p.rdma_completed_snapshot) (length p.rdma_inflight) in
    (
      record p {
        rdma_inflight = drop to_free p.rdma_inflight;
        rdma_completed_snapshot = cur_completed;
      },
      free_each (take to_free p.rdma_inflight) b,
    )

-- Whether the copy's result has come and its flag is set.
unfoldable pub is_copied : (ℕ → Bool) → CopyingChunk → Bool
is_copied flag_set cc =
    cc.result_received && (elim cc.copy_done_flag [ none ↦ false | some flag ↦ flag_set flag ])

-- What sending changes; `recycled` are the flags given back.
pub record Sending : Type 0 where
  pub worker : WorkerState
  pub ctx : Progress
  pub copying : List CopyingChunk
  pub inflight : List ℕ
  pub requests : List SendWr
  pub recycled : List (Option ℕ)

unfoldable pub proxy_wr : ℕ → ℕ → Progress → CopyingChunk → ℕ → ℕ → SendWr
proxy_wr nic qp_index ctx cc lkey rkey =
    let ck = get_chunk ctx.chunks cc.chunk_idx in
    record {
      wr_id = encode nic qp_index ctx.handle cc.chunk_idx;
      opcode = rdma_write;
      addr = cc.proxy_addr;
      length = ck.length % 2 ^ 32;
      lkey = lkey;
      remote_addr = ck.remote_addr;
      rkey = rkey;
    }

unfoldable pub count_sent : ℕ → ℕ → CopyingChunk → List CopyingChunk → SendWr → Sending → Sending
count_sent nic qp_index cc rest wr s = record {
  worker = count_posted nic qp_index s.worker;
  ctx = record s.ctx {
    per_nic_posted = bump s.ctx.per_nic_posted nic;
    per_nic_qp_posted = bump_2 s.ctx.per_nic_qp_posted nic qp_index;
    per_nic_bytes = bump_by s.ctx.per_nic_bytes nic (get_chunk s.ctx.chunks cc.chunk_idx).length;
  };
  copying = rest;
  inflight = s.inflight ++ (cc.length ∷ []);
  requests = s.requests ++ (wr ∷ []);
  recycled = s.recycled ++ (cc.copy_done_flag ∷ []);
}

-- Step 1: the copied chunks at the front go out, in order, while NIC and queue pairs have room.
unfoldable pub send_copied :
    PostSetup → NicConnCache → (ℕ → Bool) → ℕ → ℕ → List CopyingChunk → Sending → Sending
unfolding count_sent is_copied proxy_wr
send_copied setup cache flag_set nic lkey [] s = s
send_copied setup cache flag_set nic lkey (cc ∷ ccs) s =
    let ck = get_chunk s.ctx.chunks cc.chunk_idx in
    let failed_now = record s { ctx = stop err_transfer s.ctx } in
    if not (is_copied flag_set cc)
    then s
    else if leb (max_outstanding_per_nic setup) (nic_outstanding s.worker nic)
    then s
    else elim (select_qp setup s.worker nic) [
      | none ↦ s
      | some qp_index ↦ elim (cache (cache_key ck.host_idx nic)) [
        | none ↦ s
        | some info ↦
            let r = cached info qp_index in
            let wr = proxy_wr nic qp_index s.ctx cc lkey r.rkey in
            let rest =
              send_copied setup cache flag_set nic lkey ccs (count_sent nic qp_index cc ccs wr s) in
            if (lkey == 0) || (r.rkey == 0) then failed_now else elim r.qp [
              | none ↦ failed_now
              | some qp ↦ if setup.ibv_post_send qp wr then rest else failed_now
            ]
      ]
    ]

abbrev pub lengths_of : List CopyingChunk → List ℕ
lengths_of [] = []
lengths_of (cc ∷ ccs) = cc.length ∷ lengths_of ccs

-- What a pipeline holds is freed when its transfer ends.
unfoldable pub cleanup : ProxyPipeline → ProxyBuffer → ProxyPipeline × ProxyBuffer
unfolding free_each
cleanup p b = (
  record p { copying_chunks = []; rdma_inflight = [] },
  free_each p.rdma_inflight (free_each (lengths_of p.copying_chunks) b),
)
