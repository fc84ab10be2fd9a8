-- ===== src/Chunks.antt =====
-- How a transfer is cut into chunks: the loop of `MPComm::Impl::transferAsyncStart` that lays the
-- chunks out host by host, and `TransferContext::getChunk`, which computes a chunk from its index.
-- Both are in src/mpcomm.cpp.
pub mod Spec
pub mod Search
pub mod Plan
pub mod Tiling
mod Tests
use ucl_mpcomm.Common.{
  ltb, leb, if◌then◌else◌, length, get_or, add64, sub64, mul64, ℕ, zero, suc, ◌/◌, true, false,
  List, [], ◌∷◌,
}

pub data TransferDirection : Type 0 where
  scatter gather broadcast : TransferDirection

pub record ChunkTask : Type 0 where
  pub host_idx : ℕ
  pub local_addr : ℕ
  pub remote_addr : ℕ
  pub length : ℕ

-- The fields of `TransferContext` that `getChunk` reads.
pub record ChunkTable : Type 0 where
  pub local_addr : ℕ
  pub remote_addrs : List ℕ
  pub lengths : List ℕ
  pub max_chunk_size : ℕ
  pub host_chunk_starts : List ℕ
  pub host_local_offsets : List ℕ

-- The local variables that the layout loop fills.
pub record Layout : Type 0 where
  pub total_chunks : ℕ
  pub host_chunk_starts : List ℕ
  pub host_local_offsets : List ℕ

abbrev pub next_offset : TransferDirection → ℕ → ℕ → ℕ
next_offset broadcast offset len = offset
next_offset _ offset len = add64 offset len

-- The loop over the hosts that are left, at the current total and local offset.
unfoldable pub layout_from : TransferDirection → ℕ → List ℕ → ℕ → ℕ → Layout
layout_from direction max_chunk_size [] total_chunks running_local_offset = record {
  total_chunks = total_chunks;
  host_chunk_starts = [];
  host_local_offsets = [];
}
layout_from direction max_chunk_size (len ∷ lens) total_chunks running_local_offset =
    let rest =
      layout_from direction max_chunk_size lens
        (add64 total_chunks (sub64 (add64 len max_chunk_size) 1 / max_chunk_size))
        (next_offset direction running_local_offset len) in
    record {
      total_chunks = rest.total_chunks;
      host_chunk_starts = total_chunks ∷ rest.host_chunk_starts;
      host_local_offsets = running_local_offset ∷ rest.host_local_offsets;
    }

unfoldable pub layout : TransferDirection → ℕ → List ℕ → Layout
unfolding layout_from
layout direction max_chunk_size lengths = layout_from direction max_chunk_size lengths 0 0

-- The binary search of `getChunk`; a round for each unit of fuel.
unfoldable pub search_host : List ℕ → ℕ → ℕ → ℕ → ℕ → ℕ → ℕ
search_host starts chunk_idx zero lo hi host_idx = host_idx
search_host starts chunk_idx (suc fuel) lo hi host_idx =
    let mid = add64 lo (sub64 hi lo / 2) in
    elim (ltb lo hi) [
      | false ↦ host_idx
      | true ↦ elim (leb (get_or starts mid 0) chunk_idx) [
        | true ↦ search_host starts chunk_idx fuel (add64 mid 1) hi mid
        | false ↦ search_host starts chunk_idx fuel lo mid host_idx
      ]
    ]

-- The range shrinks in each round, so its first size is enough fuel (`Search.search_host-IsLast`).
unfoldable pub find_host : List ℕ → ℕ → ℕ
unfolding search_host
find_host starts chunk_idx = search_host starts chunk_idx (length starts) 0 (length starts) 0

-- The chunk at an index, once its host is known.
unfoldable pub chunk_of_host : ChunkTable → ℕ → ℕ → ChunkTask
chunk_of_host t chunk_idx host_idx =
    let chunk_within_host = sub64 chunk_idx (get_or t.host_chunk_starts host_idx 0) in
    let offset = mul64 chunk_within_host t.max_chunk_size in
    let remaining = sub64 (get_or t.lengths host_idx 0) offset in
    record {
      host_idx = host_idx;
      local_addr = add64 (add64 t.local_addr (get_or t.host_local_offsets host_idx 0)) offset;
      remote_addr = add64 (get_or t.remote_addrs host_idx 0) offset;
      length = if ltb remaining t.max_chunk_size then remaining else t.max_chunk_size;
    }

unfoldable pub get_chunk : ChunkTable → ℕ → ChunkTask
unfolding find_host chunk_of_host
get_chunk t chunk_idx = chunk_of_host t chunk_idx (find_host t.host_chunk_starts chunk_idx)

-- The table that `transferAsyncStart` stores in the context.
unfoldable pub chunk_table : TransferDirection → ℕ → ℕ → List ℕ → List ℕ → ChunkTable
unfolding layout
chunk_table direction max_chunk_size local_addr remote_addrs lengths =
    let l = layout direction max_chunk_size lengths in
    record {
      local_addr = local_addr;
      remote_addrs = remote_addrs;
      lengths = lengths;
      max_chunk_size = max_chunk_size;
      host_chunk_starts = l.host_chunk_starts;
      host_local_offsets = l.host_local_offsets;
    }
