-- ===== src/Worker/Cache.antt =====
-- Connections as the posting loop of src/mpcomm.cpp sees them: `getOrCreateQP`, `initContextCache`,
-- which looks everything up once per transfer, and the look-up of the loop itself, with its fallback
-- for a pair of host and NIC that is not in the cache. The branch for proxy NICs is left out.
pub mod Agree
use ucl_mpcomm.Common.{
  ltb, leb, ◌==◌, if◌then◌else◌, length, get_elem?, get_or, word, ℕ, zero, suc, ◌%◌, Option, none,
  some, List, [], ◌∷◌,
}
use ucl_mpcomm.Common.Bits.{◌<<◌}
use ucl_mpcomm.Chunks.{ChunkTask}
use ucl_mpcomm.Memory.{MemoryRegionInfo, get_lkey}
use ucl_mpcomm.Query.{ConnectionInfo, get_rkey_for_addr}
use ucl_mpcomm.Worker.{Progress}
use Prim.Native.Nat.{bit_or}

-- `local_to_remote_nic_map`, where a missing NIC has no remote ones, beside the rest.
pub record Connection : Type 0 where
  pub local_to_remote_nic_map : ℕ → List ℕ
  pub info : ConnectionInfo

-- What the look-ups read: `memory_regions` and the size of `nic_contexts_`, `connections_` by host
-- id, and each NIC's `qp_map`, whose key is made of the host id and the two NICs. A queue pair is a
-- number here.
pub record Fabric : Type 0 where
  pub num_nic_contexts : ℕ
  pub memory_regions : List (List MemoryRegionInfo)
  pub connections : List ℕ → Option Connection
  pub qp_map : ℕ → List ℕ → ℕ → List ℕ

-- A key without entry and one with an empty list both give no queue pair.
unfoldable pub get_or_create_qp : Fabric → ℕ → List ℕ → ℕ → ℕ → Option ℕ
get_or_create_qp fabric local_nic remote_host_id remote_nic qp_index =
    if leb fabric.num_nic_contexts local_nic
    then none
    else let qp_list = fabric.qp_map local_nic remote_host_id remote_nic in
      if ltb qp_index (length qp_list) then get_elem? qp_list qp_index else get_elem? qp_list 0

-- `getLkey`: a NIC out of range has no key.
abbrev pub lkey_at : Fabric → ℕ → ℕ → ℕ
lkey_at fabric nic addr = get_lkey fabric.memory_regions nic addr

-- The first remote NIC that the local one is mapped to, or that of the same index.
unfoldable pub remote_nic_of : Connection → ℕ → ℕ
remote_nic_of conn local_nic = get_or (conn.local_to_remote_nic_map local_nic) 0 local_nic

pub record NicConnInfo : Type 0 where
  pub remote_nic : ℕ
  pub rkey : ℕ
  pub lkey : ℕ
  pub qps : List (Option ℕ)
  pub num_qps : ℕ

abbrev pub max_qps_per_conn : ℕ
max_qps_per_conn = 16

-- The queue pairs from an index on: up to the configured number, and null ones behind.
unfoldable pub fill_qps : (ℕ → Option ℕ) → ℕ → ℕ → ℕ → List (Option ℕ)
fill_qps qp_at qps_per_connection qi zero = []
fill_qps qp_at qps_per_connection qi (suc n) =
    (if ltb qi qps_per_connection then qp_at qi else none)
    ∷ fill_qps qp_at qps_per_connection (suc qi) n

unfoldable pub conn_info : Fabric → ℕ → Progress → ℕ → List ℕ → Connection → ℕ → NicConnInfo
conn_info fabric qps_per_connection ctx host_idx host_id conn local_nic =
    let remote_nic = remote_nic_of conn local_nic in
    record {
      remote_nic = remote_nic;
      rkey = get_rkey_for_addr conn.info (get_or ctx.chunks.remote_addrs host_idx 0) remote_nic;
      lkey = lkey_at fabric local_nic ctx.chunks.local_addr;
      qps =
          fill_qps (get_or_create_qp fabric local_nic host_id remote_nic) qps_per_connection 0
            max_qps_per_conn;
      num_qps = qps_per_connection;
    }

unfoldable pub cache_key : ℕ → ℕ → ℕ
cache_key host_idx nic = bit_or ((host_idx << 16) % word) nic

-- The map by key.
abbrev pub NicConnCache : Type 0
NicConnCache = ℕ → Option NicConnInfo

unfoldable pub put_info : NicConnCache → ℕ → NicConnInfo → NicConnCache
put_info cache key info k = if k == key then some info else cache k

unfoldable pub cache_nics :
    Fabric → ℕ → Progress → ℕ → List ℕ → Connection → List ℕ → NicConnCache → NicConnCache
unfolding put_info
cache_nics fabric qpc ctx host_idx host_id conn [] cache = cache
cache_nics fabric qpc ctx host_idx host_id conn (nic ∷ nics) cache =
    cache_nics fabric qpc ctx host_idx host_id conn nics
      (put_info cache (cache_key host_idx nic) (conn_info fabric qpc ctx host_idx host_id conn nic))

unfoldable pub cache_hosts : Fabric → ℕ → Progress → ℕ → List (List ℕ) → NicConnCache → NicConnCache
unfolding cache_nics
cache_hosts fabric qpc ctx host_idx [] cache = cache
cache_hosts fabric qpc ctx host_idx (host_id ∷ hosts) cache =
    cache_hosts fabric qpc ctx (suc host_idx) hosts (elim (fabric.connections host_id) [
      | none ↦ cache
      | some conn ↦ cache_nics fabric qpc ctx host_idx host_id conn ctx.candidate_nic_indices cache
    ])

unfoldable pub init_context_cache : Fabric → ℕ → Progress → NicConnCache
unfolding cache_hosts
init_context_cache fabric qpc ctx = cache_hosts fabric qpc ctx 0 ctx.host_list (λ key. none)

-- What a work request needs to know of its connection.
pub record Resolved : Type 0 where
  pub lkey : ℕ
  pub rkey : ℕ
  pub qp : Option ℕ

unfoldable pub cached : NicConnInfo → ℕ → Resolved
cached info qp_index = record {
  lkey = info.lkey;
  rkey = info.rkey;
  qp = if ltb qp_index info.num_qps then get_or info.qps qp_index none else get_or info.qps 0 none;
}

-- The fallback looks the addresses of the chunk itself up.
unfoldable pub on_the_fly : Fabric → Progress → ℕ → ℕ → ChunkTask → Resolved
on_the_fly fabric ctx nic qp_index chunk =
    let host_id = get_or ctx.host_list chunk.host_idx [] in
    let lkey = lkey_at fabric nic chunk.local_addr in
    elim (fabric.connections host_id) [
      | none ↦ record {
        lkey = lkey;
        rkey = 0;
        qp = get_or_create_qp fabric nic host_id nic qp_index;
      }
      | some conn ↦
          let remote_nic = remote_nic_of conn nic in
          record {
            lkey = lkey;
            rkey = get_rkey_for_addr conn.info chunk.remote_addr remote_nic;
            qp = get_or_create_qp fabric nic host_id remote_nic qp_index;
          }
    ]

unfoldable pub resolve : Fabric → NicConnCache → Progress → ℕ → ℕ → ChunkTask → Resolved
unfolding cached on_the_fly
resolve fabric cache ctx nic qp_index chunk = elim (cache (cache_key chunk.host_idx nic)) [
  | none ↦ on_the_fly fabric ctx nic qp_index chunk
  | some info ↦ cached info qp_index
]
