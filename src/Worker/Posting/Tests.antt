-- ===== src/Worker/Posting/Tests.antt =====
-- A worker with two NICs posts a transfer of two chunks to one host; NIC 0 is in quarantine.
use ucl_mpcomm.Common.{
  ◌==◌, if◌then◌else◌, length, get_or, minus_one, pos, ℕ, zero, suc, ◌+◌, ◌^◌, ◌<◌, ◌≡◌, refl, ap,
  subst, Bool, true, false, Option, none, some, List, [], ◌∷◌, ◌++◌, map, arith,
}
use ucl_mpcomm.Errors.{success}
use ucl_mpcomm.Chunks.{
  gather, chunk_table, get_chunk, chunk_of_host, find_host, search_host, layout, layout_from,
}
use ucl_mpcomm.Query.{endpoint_rkey, find_remote, get_rkey_for_addr}
use ucl_mpcomm.WrId.{encode, decode_nic, decode_qp}
use ucl_mpcomm.Memory.{MemoryRegionInfo, contains, find_region, get_lkey}
use ucl_mpcomm.Nics.Laws.{mem}
use ucl_mpcomm.Nics.{all_nics_from}
use ucl_mpcomm.Worker.{
  complete, bump, bump_2, Progress, WorkCompletion, WorkerState, WorkerSetup, NicQuarantineState,
}
use ucl_mpcomm.Worker.Cache.{
  Connection, Fabric, NicConnCache, init_context_cache, resolve, on_the_fly, cache_key, cache_hosts,
  cache_nics, cached, conn_info, fill_qps, get_or_create_qp, put_info, remote_nic_of, lkey_at,
}
use ucl_mpcomm.Worker.Cache.Agree.{resolve-on_the_fly}
use ucl_mpcomm.Worker.Posting.{
  PostSetup, in_quarantine_now, SendWr, post_chunk, post_all, post_loop, post_on, select_nic, pick,
  pick_from, has_room, eff_outstanding, eff_max, max_outstanding_per_nic, select_qp, qp_has_room,
  after_round, assign_chunk, assign_pending, bump_by, count_chunk, count_posted, has_pipeline,
  send_wr, nic_outstanding, qp_outstanding,
}
use ucl_mpcomm.Worker.Posting.Ledger.{ids_of}
use ucl_mpcomm.Worker.Posting.Sequence.{Ran, post_all-Ran}
use ucl_mpcomm.Worker.Posting.Blackout.{post_all-quarantined}

abbrev setup : PostSetup
setup = record {
  max_outstanding_per_qp = 4;
  qps_per_connection = 1;
  num_active_pxn_transfers = 1;
  weigh = λ nvlink rdma. nvlink + rdma;
  ibv_post_send = λ qp wr. true;
}

abbrev worker_setup : WorkerSetup
worker_setup = record { num_nics = 2; qps_per_connection = 1; tolerate = false }

abbrev host : List ℕ
host = 104 ∷ []

abbrev region : ℕ → MemoryRegionInfo
region key = record {
  addr = 4096;
  length = 4096;
  mr = record { id = key; lkey = key; rkey = key };
  lkey = key;
  rkey = key;
  numa_node = pos 0;
  is_gpu = false;
  gpu_device_id = minus_one;
  pcie_affine_nic_indices = [];
}

abbrev peer : Connection
peer = record {
  local_to_remote_nic_map = λ nic. nic ∷ [];
  info = record {
    nic_endpoints = record { gid = []; rkey = 7 } ∷ record { gid = []; rkey = 8 } ∷ [];
    remote_buffers = [];
  };
}

abbrev fabric : Fabric
fabric = record {
  num_nic_contexts = 2;
  memory_regions = (region 5 ∷ []) ∷ (region 6 ∷ []) ∷ [];
  connections = λ host_id. some peer;
  qp_map = λ nic host_id remote. (nic + 20) ∷ [];
}

abbrev transfer : Progress
transfer = record {
  handle = 1;
  direction = gather;
  host_list = host ∷ [];
  chunks = chunk_table gather 64 4096 (8192 ∷ []) (100 ∷ []);
  total_chunks = 2;
  next_chunk_idx = 0;
  candidate_nic_indices = 0 ∷ 1 ∷ [];
  per_nic_posted = 0 ∷ 0 ∷ [];
  per_nic_qp_posted = (0 ∷ []) ∷ (0 ∷ []) ∷ [];
  per_nic_bytes = 0 ∷ 0 ∷ [];
  submitted = true;
  error_code = success;
  finished = false;
  total_completed = 0;
  per_nic_completed = 0 ∷ 0 ∷ [];
  per_nic_qp_completed = (0 ∷ []) ∷ (0 ∷ []) ∷ [];
  pxn_enabled = false;
  pxn_is_proxy_nic = [];
  pxn_proxy_pipelines = [];
}

abbrev flag : Bool → NicQuarantineState
flag b = record { consecutive_errors = 0; in_quarantine = b }

abbrev idle : List NicQuarantineState → WorkerState
idle flags = record {
  worker_nic_posted = 0 ∷ 0 ∷ [];
  worker_nic_qp_posted = (0 ∷ []) ∷ (0 ∷ []) ∷ [];
  worker_nic_completed = 0 ∷ 0 ∷ [];
  worker_nic_qp_completed = (0 ∷ []) ∷ (0 ∷ []) ∷ [];
  nic_quarantine = flags;
  transfers = λ h. if h == 1 then some transfer else none;
}

abbrev one_down : WorkerState
one_down = idle (flag true ∷ flag false ∷ [])

abbrev all_down : WorkerState
all_down = idle (flag true ∷ flag true ∷ [])

abbrev cache : NicConnCache
cache = init_context_cache fabric 1 transfer

abbrev after_post : WorkerState
after_post = (post_all setup fabric cache [] one_down transfer).worker

abbrev sent_ids : List ℕ
sent_ids = ids_of (post_all setup fabric cache [] one_down transfer).requests ++ []

-- The completion of the first chunk.
abbrev first_done : WorkCompletion
first_done = record { wr_id = encode 1 0 1 0; ok = true }

-- Both chunks go to NIC 1.
routed :
    map
      (λ (wr : SendWr). decode_nic wr.wr_id)
      (post_all setup fabric cache [] one_down transfer).requests
    ≡ 1 ∷ 1 ∷ []
unfolding post_all post_chunk select_nic pick has_room in_quarantine_now eff_outstanding
    nic_outstanding eff_max max_outstanding_per_nic select_qp all_nics_from qp_has_room
    qp_outstanding post_on resolve init_context_cache cache_key chunk_of_host find_host get_chunk
    search_host contains find_region get_lkey endpoint_rkey find_remote get_rkey_for_addr
    cache_hosts cache_nics cached conn_info fill_qps get_or_create_qp on_the_fly put_info
    remote_nic_of after_round assign_chunk assign_pending bump_by count_chunk count_posted
    has_pipeline pick_from post_loop send_wr bump bump_2 encode decode_nic layout layout_from
    decode_qp chunk_table
routed = refl

-- Both chunks are posted, and the first completes.
abbrev after_report : WorkerState
after_report = complete worker_setup 1 first_done after_post

post_all-Ran_example :
    Ran setup fabric cache transfer (post_all setup fabric cache [] one_down transfer)
post_all-Ran_example = post_all-Ran setup fabric cache [] one_down transfer refl (omega arith)

all_candidates_down :
    (nic : ℕ)
    → mem nic transfer.candidate_nic_indices ≡ true
    → in_quarantine_now all_down.nic_quarantine nic ≡ true
unfolding in_quarantine_now
all_candidates_down zero m = refl
all_candidates_down (suc zero) m = refl
all_candidates_down (suc (suc nic)) m = absurd (ground (arith, m))

post_all-quarantined_example :
    let p = post_all setup fabric cache [] all_down transfer in
    (p.requests ≡ []) × (p.worker ≡ all_down) × (p.ctx ≡ transfer)
post_all-quarantined_example =
    post_all-quarantined setup [] all_down transfer fabric cache all_candidates_down

candidates_small : (nic : ℕ) → mem nic transfer.candidate_nic_indices ≡ true → nic < 2 ^ 16
candidates_small nic m = ground (arith, m)

one_host : (get_chunk transfer.chunks 1).host_idx < length transfer.host_list
unfolding post_all post_chunk select_nic pick has_room in_quarantine_now eff_outstanding
    nic_outstanding eff_max max_outstanding_per_nic select_qp all_nics_from qp_has_room
    qp_outstanding post_on resolve init_context_cache cache_key chunk_of_host find_host get_chunk
    search_host contains find_region get_lkey endpoint_rkey find_remote get_rkey_for_addr
    cache_hosts cache_nics cached conn_info fill_qps get_or_create_qp on_the_fly put_info
    remote_nic_of after_round assign_chunk assign_pending bump_by count_chunk count_posted
    has_pipeline pick_from post_loop send_wr bump bump_2 encode decode_nic layout layout_from
    decode_qp chunk_table
one_host = omega arith

same_lkey :
    lkey_at fabric 1 (get_chunk transfer.chunks 1).local_addr
    ≡ lkey_at fabric 1 transfer.chunks.local_addr
unfolding post_all post_chunk select_nic pick has_room in_quarantine_now eff_outstanding
    nic_outstanding eff_max max_outstanding_per_nic select_qp all_nics_from qp_has_room
    qp_outstanding post_on resolve init_context_cache cache_key chunk_of_host find_host get_chunk
    search_host contains find_region get_lkey endpoint_rkey find_remote get_rkey_for_addr
    cache_hosts cache_nics cached conn_info fill_qps get_or_create_qp on_the_fly put_info
    remote_nic_of after_round assign_chunk assign_pending bump_by count_chunk count_posted
    has_pipeline pick_from post_loop send_wr bump bump_2 encode decode_nic layout layout_from
    decode_qp chunk_table
same_lkey = refl

same_rkey :
    (conn : Connection)
    → fabric.connections (get_or transfer.host_list (get_chunk transfer.chunks 1).host_idx [])
      ≡ some conn
    → get_rkey_for_addr conn.info (get_chunk transfer.chunks 1).remote_addr (remote_nic_of conn 1)
      ≡ get_rkey_for_addr conn.info
          (get_or transfer.chunks.remote_addrs (get_chunk transfer.chunks 1).host_idx 0)
          (remote_nic_of conn 1)
unfolding post_all post_chunk select_nic pick has_room in_quarantine_now eff_outstanding
    nic_outstanding eff_max max_outstanding_per_nic select_qp all_nics_from qp_has_room
    qp_outstanding post_on resolve init_context_cache cache_key chunk_of_host find_host get_chunk
    search_host contains find_region get_lkey endpoint_rkey find_remote get_rkey_for_addr
    cache_hosts cache_nics cached conn_info fill_qps get_or_create_qp on_the_fly put_info
    remote_nic_of after_round assign_chunk assign_pending bump_by count_chunk count_posted
    has_pipeline pick_from post_loop send_wr bump bump_2 encode decode_nic layout layout_from
    decode_qp chunk_table
same_rkey conn e =
    let at : peer ≡ conn = ap (λ (o : Option Connection). elim o [ none ↦ peer | some c ↦ c ]) e in
    subst
      (λ c.
        get_rkey_for_addr c.info (get_chunk transfer.chunks 1).remote_addr (remote_nic_of c 1)
        ≡ get_rkey_for_addr c.info
            (get_or transfer.chunks.remote_addrs (get_chunk transfer.chunks 1).host_idx 0)
            (remote_nic_of c 1))
      at refl

resolve-on_the_fly_example :
    resolve fabric cache transfer 1 0 (get_chunk transfer.chunks 1)
    ≡ on_the_fly fabric transfer 1 0 (get_chunk transfer.chunks 1)
resolve-on_the_fly_example =
    resolve-on_the_fly fabric 1 transfer 1 0 (get_chunk transfer.chunks 1) candidates_small
      (omega arith) (omega arith) one_host (omega arith) (omega arith) same_lkey same_rkey
