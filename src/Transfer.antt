-- ===== src/Transfer.antt =====
-- The life of a transfer in src/mpcomm.cpp: `transferAsyncStart` and the calls that reach it,
-- `isTransferComplete`, `waitTransfer`, `getTransferResult` and `releaseTransfer`, as built without
-- CUDA. Times, statistics and logging are left out. Each mutex makes its section one step.
pub mod Laws
pub mod Start
mod Tests
use ucl_mpcomm.Common.{
  leb, ◌==◌, if◌then◌else◌, length, replicate, ℤ, pos, negsuc, add64, ℕ, zero, suc, ◌+◌, ◌*◌, ◌%◌,
  Bool, true, not, ◌||◌, Option, none, some, List, [], ◌∷◌,
}
use ucl_mpcomm.Errors.{success, err_invalid_handle, err_timeout}
use ucl_mpcomm.HandlePool.{HandlePool, allocate, release, invalid_transfer_handle}
use ucl_mpcomm.LockFreeQueue.{LockFreeQueue, try_push}
use ucl_mpcomm.Chunks.{TransferDirection, scatter, gather, broadcast, ChunkTable, layout}
use ucl_mpcomm.Memory.{MemoryRegionInfo, get_numa_node_for_addr, get_pcie_affinity_nics_for_addr}
use ucl_mpcomm.Nics.{
  NicTopologyInfo, get_local_nic_indices_for_numa, select_candidates, get_numa_for_addr,
}

-- The fields of `TransferContext` that these calls set or read. The constructor zeroes the counters.
pub record TransferContext : Type 0 where
  pub handle : ℕ
  pub total_chunks : ℕ
  pub total_completed : ℕ
  pub error_code : ℤ
  pub finished : Bool
  pub host_list : List (List ℕ)
  pub direction : TransferDirection
  pub chunks : ChunkTable
  pub next_chunk_idx : ℕ
  pub candidate_nic_indices : List ℕ
  pub num_nics_used : ℕ
  pub num_qps_used : ℕ
  pub per_nic_bytes : List ℕ
  pub numa_id : ℕ

-- What initialisation and configuration fix.
pub record Setup : Type 0 where
  pub initialized : Bool
  pub nic_names : List (List ℕ)
  pub nic_topology : List NicTopologyInfo
  pub num_numa_nodes : ℕ
  pub max_rdma_transfer_size : ℕ
  pub qps_per_connection : ℕ

-- What the calls change. A map is a function; `per_numa_transfers` is first indexed by the node.
-- With `kWorkersPerNuma` 1, a node has one worker and one queue.
pub record State : Type 0 where
  pub memory_regions : List (List MemoryRegionInfo)
  pub in_quarantine : List Bool
  pub handle_pool : HandlePool
  pub per_numa_transfers : ℕ → ℕ → Option TransferContext
  pub handle_numa_map : ℕ → Option ℕ
  pub worker_queues : ℕ → LockFreeQueue

-- `map[key] = value`, and `erase` with `none`.
abbrev pub put {ℓ} : {A : Type ℓ} → (ℕ → A) → ℕ → A → ℕ → A
put f key value k = if k == key then value else f k

abbrev pub workers_per_numa : ℕ
workers_per_numa = 1

-- `selectWorkerForNuma` for a node that exists; its counter is taken modulo `kWorkersPerNuma`, 1.
unfoldable pub select_worker_for_numa : ℕ → ℕ → ℕ → ℕ
select_worker_for_numa num_numa_nodes numa_id round_robin =
    let node = if leb num_numa_nodes numa_id then 0 else numa_id in
    node * workers_per_numa + round_robin % workers_per_numa

unfoldable pub make_context :
    Setup → State → ℕ → ℕ → List (List ℕ) → List ℕ → List ℕ → TransferDirection → TransferContext
make_context setup s handle local_addr host_list remote_addrs lengths direction =
    let numa_id = get_numa_for_addr s.memory_regions setup.num_numa_nodes local_addr in
    let l = layout direction setup.max_rdma_transfer_size lengths in
    let is_empty = l.total_chunks == 0 in
    let candidates =
      select_candidates (get_pcie_affinity_nics_for_addr s.memory_regions local_addr)
        (get_local_nic_indices_for_numa setup.nic_topology setup.nic_names
          (get_numa_node_for_addr s.memory_regions local_addr))
        (length setup.nic_names) s.in_quarantine in
    record {
      handle = handle;
      total_chunks = l.total_chunks;
      total_completed = 0;
      error_code = success;
      finished = is_empty;
      host_list = host_list;
      direction = direction;
      chunks = record {
        local_addr = local_addr;
        remote_addrs = remote_addrs;
        lengths = lengths;
        max_chunk_size = if is_empty then 0 else setup.max_rdma_transfer_size;
        host_chunk_starts = if is_empty then [] else l.host_chunk_starts;
        host_local_offsets = if is_empty then [] else l.host_local_offsets;
      };
      next_chunk_idx = 0;
      candidate_nic_indices = if is_empty then [] else candidates;
      num_nics_used = if is_empty then 0 else length setup.nic_names;
      num_qps_used = if is_empty then 0 else setup.qps_per_connection;
      per_nic_bytes = replicate 16 0;
      numa_id = numa_id;
    }

-- Puts a context into both maps.
unfoldable pub store_context : TransferContext → State → State
store_context ctx s = record s {
  per_numa_transfers =
      put s.per_numa_transfers ctx.numa_id
        (put (s.per_numa_transfers ctx.numa_id) ctx.handle (some ctx));
  handle_numa_map = put s.handle_numa_map ctx.handle (some ctx.numa_id);
}

-- `none` is a call that spins on a full worker queue.
unfoldable pub submit : Setup → ℕ → TransferContext → State → Option (ℕ × State)
submit setup round_robin ctx s =
    let stored = store_context ctx s in
    let worker_id = select_worker_for_numa setup.num_numa_nodes ctx.numa_id round_robin in
    let (pushed, queue) = try_push ctx.handle (s.worker_queues worker_id) in
    if pushed
    then some (ctx.handle, record stored { worker_queues = put s.worker_queues worker_id queue })
    else none

-- `round_robin` is the node's counter of workers.
unfoldable pub transfer_async_start :
    Setup → ℕ → State → ℕ → List (List ℕ) → List ℕ → List ℕ → TransferDirection → Option (ℕ × State)
transfer_async_start setup round_robin s local_addr host_list remote_addrs lengths direction =
    let host_count = length host_list in
    let (handle, pool) = allocate s.handle_pool in
    let allocated = record s { handle_pool = pool } in
    let ctx = make_context setup s handle local_addr host_list remote_addrs lengths direction in
    if not setup.initialized
    then some (invalid_transfer_handle, s)
    else if (host_count == 0)
        || (not (length remote_addrs == host_count) || not (length lengths == host_count))
    then some (invalid_transfer_handle, s)
    else if length setup.nic_names == 0
    then some (invalid_transfer_handle, s)
    else if handle == invalid_transfer_handle
    then some (invalid_transfer_handle, allocated)
    else if ctx.total_chunks == 0
    then some (handle, store_context ctx allocated)
    else submit setup round_robin ctx allocated

-- `scatterAsync` and `gatherAsync`
unfoldable pub scatter_async :
    Setup → ℕ → State → ℕ → List (List ℕ) → List ℕ → List ℕ → Option (ℕ × State)
scatter_async setup rr s local_addr host_list remote_addrs lengths =
    transfer_async_start setup rr s local_addr host_list remote_addrs lengths scatter

unfoldable pub gather_async :
    Setup → ℕ → State → ℕ → List (List ℕ) → List ℕ → List ℕ → Option (ℕ × State)
gather_async setup rr s local_addr host_list remote_addrs lengths =
    transfer_async_start setup rr s local_addr host_list remote_addrs lengths gather

unfoldable pub broadcast_async :
    Setup → ℕ → State → ℕ → ℕ → List (List ℕ) → List ℕ → Option (ℕ × State)
broadcast_async setup rr s local_addr len host_list remote_addrs =
    let host_count = length host_list in
    if (host_count == 0) || not (length remote_addrs == host_count)
    then some (invalid_transfer_handle, s)
    else if len == 0
    then some (invalid_transfer_handle, s)
    else transfer_async_start setup rr s local_addr host_list remote_addrs
        (replicate host_count len) broadcast

unfoldable pub put_async : Setup → ℕ → State → ℕ → List ℕ → ℕ → ℕ → Option (ℕ × State)
put_async setup rr s local_addr host remote_addr len =
    if len == 0
    then some (invalid_transfer_handle, s)
    else transfer_async_start setup rr s local_addr (host ∷ []) (remote_addr ∷ []) (len ∷ [])
        scatter

unfoldable pub get_async : Setup → ℕ → State → ℕ → List ℕ → ℕ → ℕ → Option (ℕ × State)
get_async setup rr s local_addr host remote_addr len =
    if len == 0
    then some (invalid_transfer_handle, s)
    else transfer_async_start setup rr s local_addr (host ∷ []) (remote_addr ∷ []) (len ∷ []) gather

-- The context of a handle, through both maps, as all the calls below find it.
unfoldable pub find_context : State → ℕ → Option TransferContext
find_context s handle = elim (s.handle_numa_map handle) [
  | none ↦ none
  | some numa_id ↦ s.per_numa_transfers numa_id handle
]

-- An unknown handle counts as complete.
unfoldable pub is_transfer_complete : State → ℕ → Bool
unfolding find_context
is_transfer_complete s handle = elim (find_context s handle) [
  | none ↦ true
  | some ctx ↦ ctx.finished
]

abbrev pub sum_first : ℕ → List ℕ → ℕ
sum_first zero xs = 0
sum_first (suc n) [] = 0
sum_first (suc n) (x ∷ xs) = add64 x (sum_first n xs)

-- The error code and the bytes transferred.
unfoldable pub get_transfer_result : State → ℕ → ℤ × ℕ
unfolding find_context
get_transfer_result s handle = elim (find_context s handle) [
  | none ↦ (err_invalid_handle, 0)
  | some ctx ↦ (ctx.error_code, sum_first ctx.num_nics_used ctx.per_nic_bytes)
]

unfoldable pub release_transfer : ℕ → State → State
release_transfer handle s = elim (s.handle_numa_map handle) [
  | none ↦ record s { handle_pool = release handle s.handle_pool }
  | some numa_id ↦ record s {
    handle_pool = release handle s.handle_pool;
    handle_numa_map = put s.handle_numa_map handle none;
    per_numa_transfers =
        put s.per_numa_transfers numa_id (put (s.per_numa_transfers numa_id) handle none);
  }
]

-- What one round of the loop of `waitTransfer` loads: the `finished` flag, the error code, and then
-- the milliseconds elapsed.
pub record Look : Type 0 where
  pub finished : Bool
  pub error_code : ℤ
  pub elapsed_ms : ℕ

-- The loop over what it would see, round by round; `none` where it still waits at the end.
unfoldable pub wait_loop : ℤ → List Look → Option ℤ
wait_loop timeout_ms [] = none
wait_loop timeout_ms (l ∷ ls) =
    let rest = wait_loop timeout_ms ls in
    if l.finished then some l.error_code else elim timeout_ms [
      | pos t ↦ if leb t l.elapsed_ms then some err_timeout else rest
      | negsuc n ↦ rest
    ]

unfoldable pub wait_transfer : State → ℕ → ℤ → List Look → Option ℤ
unfolding find_context wait_loop
wait_transfer s handle timeout_ms looks = elim (find_context s handle) [
  | none ↦ some err_invalid_handle
  | some ctx ↦ wait_loop timeout_ms looks
]
