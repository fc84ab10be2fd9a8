-- ===== src/Chunks/Tiling.antt =====
-- The chunks of a transfer, taken over all indices: they stay inside their blocks and tile the bytes.
use ucl_mpcomm.Common.{
  length, get_or, sum, ℕ, zero, suc, ◌+◌, ◌-◌, ◌*◌, ◌≤◌, ◌<◌, min, ◌≡◌, ◌∙◌, ◌≢◌, List, [], ◌∷◌,
  arith, dec_lt,
}
use native.Mathlib.Nat.{lt-div-mul-add}
use ucl_mpcomm.Chunks.{TransferDirection, broadcast, ChunkTask, layout, get_chunk}
use ucl_mpcomm.Chunks.Spec.{
  chunks_of, chunks_before, bytes_before, bytes_before-suc, chunks_before-suc, bytes_before-length,
  chunks_before-zero, bytes_before-zero, local_start-eq, local_size, block_inside,
}
use ucl_mpcomm.Chunks.Plan.{Placed, table, chunk_at, get_chunk_at, chunk_inside, layout-LaidOut}

-- The host and the place within the host of a chunk index.
pub locate :
    (max : ℕ) (lens : List ℕ) (idx : ℕ)
    → idx < chunks_before max lens (length lens)
    → (i : ℕ) × (k : ℕ) × (i < length lens)
      × (k < chunks_of max (get_or lens i 0))
      × (idx ≡ chunks_before max lens i + k)
locate max [] idx h = absurd (omega arith)
locate max (len ∷ lens) idx h = elim (dec_lt idx (chunks_of max len)) [
  | yes here ↦ (0, idx, omega arith, here, omega arith)
  | no later ↦
      let (i, k, inside, part, at) = locate max lens (idx - chunks_of max len) (omega arith) in
      (suc i, k, omega arith, part, omega arith)
]

abbrev pub sum_below : ℕ → (ℕ → ℕ) → ℕ
sum_below zero f = 0
sum_below (suc n) f = sum_below n f + f n

-- The chunks of a host cover its block.
chunks_cover : (max len : ℕ) → 0 < max → len ≤ chunks_of max len * max
chunks_cover max len h = omega (arith, lt-div-mul-add {a = len + max - 1} h)

module _ (dir : TransferDirection) (max local : ℕ) (remotes lens : List ℕ)
    (placed : Placed max local remotes lens) where
  open placed use {fits}

  abbrev chunk : ℕ → ChunkTask
  chunk = get_chunk (table dir max local remotes lens)

  total-eq : (layout dir max lens).total_chunks ≡ chunks_before max lens (length lens)
  total-eq = omega (arith, (layout-LaidOut dir max lens fits).total_chunks)

  at :
      (i k : ℕ)
      → i < length lens
      → k < chunks_of max (get_or lens i 0)
      → chunk (chunks_before max lens i + k) ≡ chunk_at dir max local remotes lens i k
  at = get_chunk_at dir max local remotes lens placed

  -- What a chunk may touch: some bytes, at most a chunk's worth, inside the block of one host on
  -- the remote side and inside the caller's buffer on the local side.
  pub record InBounds (c : ChunkTask) : Type 0 where
    pub host : c.host_idx < length lens
    pub some_bytes : 0 < c.length
    pub at_most : c.length ≤ max
    pub remote_low : get_or remotes c.host_idx 0 ≤ c.remote_addr
    pub remote_high :
        c.remote_addr + c.length ≤ get_or remotes c.host_idx 0 + get_or lens c.host_idx 0
    pub local_low : local ≤ c.local_addr
    pub local_high : c.local_addr + c.length ≤ local + local_size dir lens c.host_idx

  chunk_at-InBounds :
      (i k : ℕ)
      → i < length lens
      → k < chunks_of max (get_or lens i 0)
      → InBounds (chunk_at dir max local remotes lens i k)
  chunk_at-InBounds i k h q = record {
    host = h;
    some_bytes = omega (arith, inside, fits.positive);
    at_most = omega arith;
    remote_low = omega arith;
    remote_high = omega (arith, inside);
    local_low = omega arith;
    local_high = omega (arith, inside, block_inside dir lens i h);
  }
    where
      inside : k * max < get_or lens i 0
      inside = chunk_inside max (get_or lens i 0) k fits.positive q

  -- Every chunk of the transfer is in bounds: not empty, at most the chunk size, inside its host's
  -- remote block, and inside the caller's buffer. That is as long as all blocks together, but in a
  -- broadcast, where all hosts share it, only as long as the host's own block.
  pub get_chunk-InBounds :
      (idx : ℕ) → idx < (layout dir max lens).total_chunks → InBounds (chunk idx)
  get_chunk-InBounds idx h =
      let (i, k, inside, part, e) = locate max lens idx (omega (arith, total-eq)) in
      rw (e, at i k inside part) (chunk_at-InBounds i k inside part)

  -- The bytes of the chunks below the `k`-th of host `i`.
  bytes_below :
      (i k : ℕ)
      → i < length lens
      → k ≤ chunks_of max (get_or lens i 0)
      → sum_below (chunks_before max lens i + k) (λ idx. (chunk idx).length)
        ≡ bytes_before lens i + min (k * max) (get_or lens i 0)
  bytes_below zero zero h q =
      let none_before : chunks_before max lens 0 + 0 ≡ 0 =
        omega (arith, chunks_before-zero max lens) in
      rw none_before (omega (arith, bytes_before-zero lens))
  bytes_below (suc i) zero h q =
      let n = chunks_of max (get_or lens i 0) in
      let previous : chunks_before max lens (suc i) + 0 ≡ chunks_before max lens i + n =
        omega (arith, chunks_before-suc max lens i (omega arith)) in
      rw previous (
        omega (
          arith,
          bytes_below i n (omega arith) (omega arith),
          bytes_before-suc lens i (omega arith),
          chunks_cover max (get_or lens i 0) fits.positive,
        ))
  bytes_below i (suc k) h q =
      let next : chunks_before max lens i + suc k ≡ suc (chunks_before max lens i + k) =
        omega arith in
      rw (next, at i k h q)
        (omega (
          arith,
          bytes_below i k h (omega arith),
          chunk_inside max (get_or lens i 0) k fits.positive q,
        ))

  -- For a scatter or a gather: chunk after chunk, the local buffer is walked through without a gap
  -- or an overlap. The local address of a chunk is the buffer's plus the bytes of all chunks before.
  pub local_addr_walks :
      (idx : ℕ)
      → dir ≢ broadcast
      → idx < (layout dir max lens).total_chunks
      → (chunk idx).local_addr ≡ local + sum_below idx (λ j. (chunk j).length)
  local_addr_walks idx not_broadcast h =
      let (i, k, inside, part, e) = locate max lens idx (omega (arith, total-eq)) in
      rw (e, at i k inside part)
        (omega (
          arith,
          bytes_below i k inside (omega arith),
          chunk_inside max (get_or lens i 0) k fits.positive part,
          local_start-eq dir lens i not_broadcast,
        ))

  -- Every byte is transferred once: the lengths of all chunks add up to the lengths of the blocks.
  pub bytes_total : sum_below (layout dir max lens).total_chunks (λ j. (chunk j).length) ≡ sum lens
  bytes_total = rw total-eq (up_to (length lens) (omega arith) ∙ bytes_before-length lens)
    where
      up_to :
          (n : ℕ)
          → n ≤ length lens
          → sum_below (chunks_before max lens n) (λ j. (chunk j).length) ≡ bytes_before lens n
      up_to zero h = rw (chunks_before-zero max lens) (omega (arith, bytes_before-zero lens))
      up_to (suc i) h = rw (chunks_before-suc max lens i h) (
          omega (
            arith,
            bytes_below i (chunks_of max (get_or lens i 0)) h (omega arith),
            bytes_before-suc lens i h,
            chunks_cover max (get_or lens i 0) fits.positive,
          ))
