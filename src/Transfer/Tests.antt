-- ===== src/Transfer/Tests.antt =====
-- A library with one NIC and one node, where handle 1 is in use by a transfer.
use ucl_mpcomm.Common.{
  ◌==◌, if◌then◌else◌, replicate, pos, ℕ, ◌≤◌, ◌≡◌, refl, ◌≢◌, ◌⊎◌, true, false, none, some, [],
  ◌∷◌, arith,
}
use ucl_mpcomm.Errors.{success, err_invalid_handle, err_timeout}
use ucl_mpcomm.HandlePool.{invalid_transfer_handle}
use ucl_mpcomm.HandlePool.Invariant as Pool
use ucl_mpcomm.HandlePool.Invariant.{AllInUse}
use ucl_mpcomm.LockFreeQueue.{new_queue}
use ucl_mpcomm.LockFreeQueue.Refine.{new_queue-IsValid}
use ucl_mpcomm.Chunks.{scatter}
use ucl_mpcomm.Transfer.{
  TransferContext, Setup, State, find_context, is_transfer_complete, get_transfer_result,
  release_transfer, Look, wait_transfer,
}
use ucl_mpcomm.Transfer.Laws.{Inv, release_transfer-Inv, wait_transfer-returns}
use ucl_mpcomm.Transfer.Start.{Ready, IsAccepted, start, Started, transfer_async_start-Started}

abbrev running : TransferContext
running = record {
  handle = 1;
  total_chunks = 2;
  total_completed = 0;
  error_code = success;
  finished = false;
  host_list = (97 ∷ []) ∷ [];
  direction = scatter;
  chunks = record {
    local_addr = 4096;
    remote_addrs = 8192 ∷ [];
    lengths = 6 ∷ [];
    max_chunk_size = 4;
    host_chunk_starts = 0 ∷ [];
    host_local_offsets = 0 ∷ [];
  };
  next_chunk_idx = 0;
  candidate_nic_indices = 0 ∷ [];
  num_nics_used = 1;
  num_qps_used = 1;
  per_nic_bytes = replicate 16 0;
  numa_id = 0;
}

abbrev setup : Setup
setup = record {
  initialized = true;
  nic_names = (109 ∷ []) ∷ [];
  nic_topology = [];
  num_numa_nodes = 1;
  max_rdma_transfer_size = 4;
  qps_per_connection = 1;
}

abbrev state : State
state = record {
  memory_regions = [] ∷ [];
  in_quarantine = false ∷ [];
  handle_pool = record { free_list = []; next_new_handle = 2 };
  per_numa_transfers = λ n h. if h == 1 then some running else none;
  handle_numa_map = λ h. if h == 1 then some 0 else none;
  worker_queues = λ _. new_queue;
}

state-pool : Pool.Inv state.handle_pool (1 ∷ [])
state-pool = record { split = λ h. ground arith; low = omega arith; high = omega arith }

state-Inv : Inv state (1 ∷ [])
unfolding find_context
state-Inv = record {
  pool = state-pool;
  absent = λ h e. ground (arith, e);
  present = λ h e. (running, ground (arith, e), ground (arith, e));
}

state-Ready : Ready state
state-Ready = record { valid = λ w. new_queue-IsValid; room = λ w. omega arith }

release_transfer-Inv_example :
    let s' = release_transfer 1 state in
    Inv s' []
    × (is_transfer_complete s' 1 ≡ true)
    × (get_transfer_result s' 1 ≡ (err_invalid_handle, 0))
    × ((k : ℕ) → k ≢ 1 → find_context s' k ≡ find_context state k)
release_transfer-Inv_example = release_transfer-Inv state (1 ∷ []) 1 state-Inv (omega arith)

known : find_context state 1 ≢ none
unfolding find_context
known e = cc

abbrev early : Look
early = record { finished = false; error_code = success; elapsed_ms = 3 }

abbrev late : Look
late = record { finished = false; error_code = success; elapsed_ms = 12 }

wait_transfer-returns_example :
    (false ≡ true → wait_transfer state 1 (pos 10) (early ∷ late ∷ []) ≡ some success)
    × ((t : ℕ)
        → pos 10 ≡ pos t
        → false ≡ false
        → t ≤ 12
        → wait_transfer state 1 (pos 10) (early ∷ late ∷ []) ≡ some err_timeout)
    × (wait_transfer state 1 (pos 10) (early ∷ []) ≡ none)
wait_transfer-returns_example =
    wait_transfer-returns state 1 (pos 10) (early ∷ []) late [] known ((refl, omega arith), tt)

accepted : IsAccepted setup 0 state 4096 ((97 ∷ []) ∷ []) (8192 ∷ []) (6 ∷ []) scatter
accepted = record {
  initialized = refl;
  some_host = omega arith;
  addrs = refl;
  lens = refl;
  some_nic = omega arith;
}

transfer_async_start-Started_example :
    ((h : ℕ) × (s' : State) × (start setup 0 state 4096
          ((97 ∷ []) ∷ [])
          (8192 ∷ [])
          (6 ∷ [])
          scatter
        ≡ some (h, s'))
      × Started setup 0 state 4096
          ((97 ∷ []) ∷ [])
          (8192 ∷ [])
          (6 ∷ [])
          scatter
          accepted
          (1 ∷ [])
          h
          s')
    ⊎ ((start setup 0 state 4096 ((97 ∷ []) ∷ []) (8192 ∷ []) (6 ∷ []) scatter
          ≡ some (invalid_transfer_handle, state))
        × AllInUse (1 ∷ []))
transfer_async_start-Started_example =
    transfer_async_start-Started setup 0 state 4096 ((97 ∷ []) ∷ []) (8192 ∷ []) (6 ∷ []) scatter
      accepted (1 ∷ []) state-Inv state-Ready
