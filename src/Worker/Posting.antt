-- ===== src/Worker/Posting.antt =====
-- Posting in `workerThreadLoop` of src/mpcomm.cpp: the loop that gives each chunk of a transfer to
-- the NIC and queue pair with the least outstanding work, until they are full. Statistics and times
-- are left out, and so is the posting from the proxy buffer, which the loop calls in between for a
-- transfer that uses proxy NICs.
pub mod Pick
pub mod Rounds
pub mod Flow
pub mod Ledger
pub mod Sequence
pub mod Blackout
mod Tests
use ucl_mpcomm.Common.{
  ltb, ◌==◌, if◌then◌else◌, length, get_or, ℤ, word, add64, sub64, mul64, ℕ, zero, suc, ◌-◌, ◌%◌,
  ◌^◌, Bool, true, false, not, ◌&&◌, ◌||◌, Option, none, some, List, [], ◌∷◌, ◌++◌,
}
use ucl_mpcomm.Errors.{err_memory, err_connection, err_transfer}
use ucl_mpcomm.Chunks.{ChunkTask, TransferDirection, gather, get_chunk}
use ucl_mpcomm.Nics.{all_nics_from}
use ucl_mpcomm.WrId.{encode}
use ucl_mpcomm.Worker.{Progress, ProxyPipeline, NicQuarantineState, WorkerState, bump, bump_2}
use ucl_mpcomm.Worker.Cache.{Fabric, NicConnCache, Resolved, resolve}

pub data Opcode : Type 0 where
  rdma_read rdma_write : Opcode

-- `ibv_send_wr` with its one `ibv_sge`.
pub record SendWr : Type 0 where
  pub wr_id : ℕ
  pub opcode : Opcode
  pub addr : ℕ
  pub length : ℕ
  pub lkey : ℕ
  pub remote_addr : ℕ
  pub rkey : ℕ

-- `weigh` is the product of the NVLink load with `pxn_proxy_nvlink_alpha`, a double, plus the RDMA
-- load, cast to an integer; `ibv_post_send` tells whether it accepts the request on the queue pair.
pub record PostSetup : Type 0 where
  pub max_outstanding_per_qp : ℕ
  pub qps_per_connection : ℕ
  pub num_active_pxn_transfers : ℕ
  pub weigh : ℕ → ℕ → ℕ
  pub ibv_post_send : ℕ → SendWr → Bool

unfoldable pub max_outstanding_per_nic : PostSetup → ℕ
max_outstanding_per_nic setup = mul64 setup.max_outstanding_per_qp setup.qps_per_connection

-- Requests that were posted on the NIC and have not completed.
unfoldable pub nic_outstanding : WorkerState → ℕ → ℕ
nic_outstanding w nic =
    sub64 (get_or w.worker_nic_posted nic 0) (get_or w.worker_nic_completed nic 0)

unfoldable pub qp_outstanding : WorkerState → ℕ → ℕ → ℕ
qp_outstanding w nic qp =
    sub64 (get_or (get_or w.worker_nic_qp_posted nic []) qp 0)
      (get_or (get_or w.worker_nic_qp_completed nic []) qp 0)

unfoldable pub in_quarantine_now : List NicQuarantineState → ℕ → Bool
in_quarantine_now [] nic = false
in_quarantine_now (q ∷ qs) zero = q.in_quarantine
in_quarantine_now (q ∷ qs) (suc nic) = in_quarantine_now qs nic

abbrev pub is_proxy : Progress → ℕ → Bool
is_proxy ctx nic = ctx.pxn_enabled && get_or ctx.pxn_is_proxy_nic nic false

-- `global_proxy_assigned` counts the chunks that the proxy pipelines of all transfers hold per NIC.
unfoldable pub eff_outstanding : PostSetup → List ℕ → WorkerState → Progress → ℕ → ℕ
eff_outstanding setup global_proxy_assigned w ctx nic =
    if is_proxy ctx nic
    then setup.weigh (get_or global_proxy_assigned nic 0 - nic_outstanding w nic)
        (nic_outstanding w nic)
    else nic_outstanding w nic

unfoldable pub eff_max : PostSetup → Progress → ℕ → ℕ
eff_max setup ctx nic =
    let per_nic = max_outstanding_per_nic setup in
    if is_proxy ctx nic
    then add64 per_nic (mul64 (mul64 per_nic 2) setup.num_active_pxn_transfers)
    else per_nic

-- The shape of both selection loops: the first of those with the least load that is `usable`.
unfoldable pub pick_from : (ℕ → Bool) → (ℕ → ℕ) → List ℕ → ℕ → Option ℕ → Option ℕ
pick_from usable load [] least best = best
pick_from usable load (i ∷ is) least best =
    let taken = usable i && ltb (load i) least in
    pick_from usable load is (if taken then load i else least) (if taken then some i else best)

-- It starts at SIZE_MAX.
unfoldable pub pick : (ℕ → Bool) → (ℕ → ℕ) → List ℕ → Option ℕ
unfolding pick_from
pick usable load is = pick_from usable load is (word - 1) none

-- A NIC that may take a chunk now.
unfoldable pub has_room : PostSetup → List ℕ → WorkerState → Progress → ℕ → Bool
has_room setup assigned w ctx nic =
    not (in_quarantine_now w.nic_quarantine nic)
    && ltb (eff_outstanding setup assigned w ctx nic) (eff_max setup ctx nic)

-- `best_nic`, where none stands for `num_nics`.
unfoldable pub select_nic : PostSetup → List ℕ → WorkerState → Progress → Option ℕ
select_nic setup assigned w ctx =
    pick (has_room setup assigned w ctx) (eff_outstanding setup assigned w ctx)
      ctx.candidate_nic_indices

unfoldable pub qp_has_room : PostSetup → WorkerState → ℕ → ℕ → Bool
qp_has_room setup w nic qp = ltb (qp_outstanding w nic qp) setup.max_outstanding_per_qp

unfoldable pub select_qp : PostSetup → WorkerState → ℕ → Option ℕ
select_qp setup w nic =
    pick (qp_has_room setup w nic) (qp_outstanding w nic) (all_nics_from 0 setup.qps_per_connection)

-- The first pipeline of the NIC takes the chunk.
unfoldable pub assign_pending : ℕ → ℕ → ℕ → List ProxyPipeline → List ProxyPipeline
assign_pending nic chunk_idx len [] = []
assign_pending nic chunk_idx len (p ∷ ps) =
    let rest = assign_pending nic chunk_idx len ps in
    if p.nic_index == nic
    then record p {
      pending_chunk_indices = p.pending_chunk_indices ++ (chunk_idx ∷ []);
      total_bytes_assigned = add64 p.total_bytes_assigned len;
      assigned_outstanding = add64 p.assigned_outstanding 1;
    }
      ∷ ps
    else p ∷ rest

unfoldable pub has_pipeline : ℕ → List ProxyPipeline → Bool
has_pipeline nic [] = false
has_pipeline nic (p ∷ ps) = (p.nic_index == nic) || has_pipeline nic ps

-- `counters[i] += n`
unfoldable pub bump_by : List ℕ → ℕ → ℕ → List ℕ
bump_by [] i n = []
bump_by (c ∷ cs) zero n = add64 c n ∷ cs
bump_by (c ∷ cs) (suc i) n = c ∷ bump_by cs i n

abbrev pub opcode_of : TransferDirection → Opcode
opcode_of gather = rdma_read
opcode_of _ = rdma_write

-- The length is cast to 32 bits.
unfoldable pub send_wr : ℕ → ℕ → Progress → ChunkTask → Resolved → SendWr
send_wr nic qp_index ctx chunk r = record {
  wr_id = encode nic qp_index ctx.handle ctx.next_chunk_idx;
  opcode = opcode_of ctx.direction;
  addr = chunk.local_addr;
  length = chunk.length % 2 ^ 32;
  lkey = r.lkey;
  remote_addr = chunk.remote_addr;
  rkey = r.rkey;
}

abbrev pub stop : ℤ → Progress → Progress
stop code ctx = record ctx { error_code = code; finished = true }

-- How a round of the loop ends, and what it leaves.
pub data Round : Type 0 where
  nic_full qp_full : Round
  assigned : List ℕ → Progress → Round
  failed : Progress → Round
  posted : ℕ → SendWr → WorkerState → Progress → Round

unfoldable pub count_posted : ℕ → ℕ → WorkerState → WorkerState
count_posted nic qp w = record w {
  worker_nic_posted = bump w.worker_nic_posted nic;
  worker_nic_qp_posted = bump_2 w.worker_nic_qp_posted nic qp;
}

unfoldable pub count_chunk : ℕ → ℕ → ℕ → Progress → Progress
count_chunk nic qp len ctx = record ctx {
  per_nic_posted = bump ctx.per_nic_posted nic;
  per_nic_qp_posted = bump_2 ctx.per_nic_qp_posted nic qp;
  per_nic_bytes = bump_by ctx.per_nic_bytes nic len;
  next_chunk_idx = add64 ctx.next_chunk_idx 1;
}

-- With NIC and queue pair chosen. No queue pair, or no key, ends the transfer.
unfoldable pub post_on : PostSetup → Fabric → NicConnCache → WorkerState → Progress → ℕ → ℕ → Round
post_on setup fabric cache w ctx nic qp_index =
    let chunk = get_chunk ctx.chunks ctx.next_chunk_idx in
    let r = resolve fabric cache ctx nic qp_index chunk in
    let wr = send_wr nic qp_index ctx chunk r in
    if r.lkey == 0
    then failed (stop err_memory ctx)
    else if r.rkey == 0
    then failed (stop err_connection ctx)
    else elim r.qp [
      | none ↦ failed (stop err_connection ctx)
      | some qp ↦
          if setup.ibv_post_send qp wr
          then posted qp wr (count_posted nic qp_index w)
              (count_chunk nic qp_index chunk.length ctx)
          else failed (stop err_transfer ctx)
    ]

unfoldable pub assign_chunk : List ℕ → Progress → ℕ → Round
unfolding assign_pending has_pipeline
assign_chunk global_proxy_assigned ctx nic =
    assigned
      (if has_pipeline nic ctx.pxn_proxy_pipelines
        then bump global_proxy_assigned nic
        else global_proxy_assigned)
      (record ctx {
        pxn_proxy_pipelines =
            assign_pending nic ctx.next_chunk_idx (get_chunk ctx.chunks ctx.next_chunk_idx).length
              ctx.pxn_proxy_pipelines;
        next_chunk_idx = add64 ctx.next_chunk_idx 1;
      })

-- One round, for the chunk at `next_chunk_idx`.
unfoldable pub post_chunk :
    PostSetup → Fabric → NicConnCache → List ℕ → WorkerState → Progress → Round
unfolding assign_chunk
post_chunk setup fabric cache global_proxy_assigned w ctx =
    elim (select_nic setup global_proxy_assigned w ctx) [
      | none ↦ nic_full
      | some nic ↦
          if is_proxy ctx nic
          then assign_chunk global_proxy_assigned ctx nic
          else elim (select_qp setup w nic) [
            | none ↦ qp_full
            | some qp_index ↦ post_on setup fabric cache w ctx nic qp_index
          ]
    ]

-- What the loop leaves, with the requests that it posted, in order.
pub record Posted : Type 0 where
  pub requests : List SendWr
  pub assigned_now : List ℕ
  pub worker : WorkerState
  pub ctx : Progress

-- The loop after a round: it ends, or goes on with `rest`.
unfoldable pub after_round :
    Round → List ℕ → WorkerState → Progress → (List ℕ → WorkerState → Progress → Posted) → Posted
after_round nic_full g w ctx rest = record {
  requests = [];
  assigned_now = g;
  worker = w;
  ctx = ctx;
}
after_round qp_full g w ctx rest = record { requests = []; assigned_now = g; worker = w; ctx = ctx }
after_round (assigned g' ctx') g w ctx rest = rest g' w ctx'
after_round (failed ctx') g w ctx rest = record {
  requests = [];
  assigned_now = g;
  worker = w;
  ctx = ctx';
}
after_round (posted qp wr w' ctx') g w ctx rest =
    let r = rest g w' ctx' in record r { requests = wr ∷ r.requests }

-- A round for each unit of fuel; as many as there are chunks left are enough, since each round
-- that goes on takes one.
unfoldable pub post_loop :
    ℕ → PostSetup → Fabric → NicConnCache → List ℕ → WorkerState → Progress → Posted
unfolding after_round
post_loop zero setup fabric cache g w ctx = record {
  requests = [];
  assigned_now = g;
  worker = w;
  ctx = ctx;
}
post_loop (suc fuel) setup fabric cache g w ctx =
    let rest = post_loop fuel setup fabric cache in
    if ltb ctx.next_chunk_idx ctx.total_chunks
    then after_round (post_chunk setup fabric cache g w ctx) g w ctx rest
    else record { requests = []; assigned_now = g; worker = w; ctx = ctx }

unfoldable pub post_all :
    PostSetup → Fabric → NicConnCache → List ℕ → WorkerState → Progress → Posted
unfolding post_loop
post_all setup fabric cache g w ctx =
    post_loop (ctx.total_chunks - ctx.next_chunk_idx) setup fabric cache g w ctx
