-- ===== src/Chunks/Plan.antt =====
-- The layout loop computes the intended layout without wrapping, and `getChunk` inverts it.
use ucl_mpcomm.Common.{
  ltb, if◌then◌else◌, length, get_or, All, sum, word, add64, sub64, mul64, ℕ, zero, suc, ◌+◌, ◌-◌,
  ◌*◌, ◌/◌, ◌≤◌, ◌<◌, min, ◌≡◌, refl, ap, List, [], ◌∷◌, arith,
}
use ucl_mpcomm.Chunks.{
  TransferDirection, ChunkTask, ChunkTable, Layout, next_offset, layout_from, layout, find_host,
  chunk_of_host, get_chunk, chunk_table,
}
use ucl_mpcomm.Chunks.Spec.{
  chunks_of, chunks_before, bytes_before, local_start, Fits, chunks_of-le, bytes_before-le,
  chunks_before-le-bytes, chunks_before-suc, chunks_before_mono,
}
use native.Mathlib.Nat.{le-div_iff_mul-le}
use ucl_mpcomm.Chunks.Search.{IsMonotone, IsLast, IsLast-unique, find_host-IsLast}

module _ (dir : TransferDirection) (max : ℕ) where
  -- What the loop over `lens` adds to the running totals.
  pub record LaidOut (lens : List ℕ) (total offset : ℕ) (l : Layout) : Type 0 where
    pub total_chunks : l.total_chunks ≡ total + chunks_before max lens (length lens)
    pub hosts : length l.host_chunk_starts ≡ length lens
    pub starts :
        (i : ℕ)
        → i < length lens
        → get_or l.host_chunk_starts i 0 ≡ total + chunks_before max lens i
    pub offsets :
        (i : ℕ)
        → i < length lens
        → get_or l.host_local_offsets i 0 ≡ offset + local_start dir lens i

  chunks_exact :
      (len : ℕ) → len + max ≤ word → 0 < max → sub64 (add64 len max) 1 / max ≡ chunks_of max len
  chunks_exact len h p = ap (λ (t : ℕ). t / max) (omega arith)

  next_offset_lem :
      (offset len : ℕ) (lens : List ℕ) (i : ℕ)
      → offset + len < word
      → next_offset dir offset len + local_start dir lens i
        ≡ offset + local_start dir (len ∷ lens) (suc i)
  next_offset_lem offset len lens i h = ground arith

  -- One host more in front.
  cons-LaidOut :
      (len : ℕ) (lens : List ℕ) (total offset total' offset' : ℕ) (l : Layout)
      → total' ≡ total + chunks_of max len
      → offset' ≡ next_offset dir offset len
      → offset + len < word
      → LaidOut lens total' offset' l
      → LaidOut (len ∷ lens) total offset (record {
        total_chunks = l.total_chunks;
        host_chunk_starts = total ∷ l.host_chunk_starts;
        host_local_offsets = offset ∷ l.host_local_offsets;
      })
  cons-LaidOut len lens total offset total' offset' l et eo fits ih = record {
    total_chunks = omega (arith, ih.total_chunks);
    hosts = ap suc ih.hosts;
    starts = elim [
      | zero ↦ λ h. omega arith
      | suc i ↦ λ h. omega (arith, ih.starts i (omega arith))
    ];
    offsets = elim [
      | zero ↦ λ h. ground arith
      | suc i ↦
          λ h. omega (arith, ih.offsets i (omega arith), next_offset_lem offset len lens i fits)
    ];
  }

  next_offset-le : (offset len : ℕ) → next_offset dir offset len ≤ offset + len
  next_offset-le offset len = ground arith

  layout_from-LaidOut :
      (lens : List ℕ) (total offset : ℕ)
      → 0 < max
      → All (λ (len : ℕ). len + max ≤ word) lens
      → total + sum lens < word
      → offset + sum lens < word
      → LaidOut lens total offset (layout_from dir max lens total offset)
  unfolding layout_from
  layout_from-LaidOut [] total offset p each t o = record {
    total_chunks = omega arith;
    hosts = refl;
    starts = λ i h. absurd (omega arith);
    offsets = λ i h. absurd (omega arith);
  }
  layout_from-LaidOut (len ∷ lens) total offset p (one, each) t o =
      let total' = add64 total (sub64 (add64 len max) 1 / max) in
      let exact : total' ≡ total + chunks_of max len =
        omega (arith, chunks_exact len one p, chunks_of-le max len p) in
      cons-LaidOut len lens total offset total' (next_offset dir offset len) _ exact refl
        (omega arith)
        (layout_from-LaidOut lens total' (next_offset dir offset len) p each
          (omega (arith, chunks_of-le max len p)) (omega (arith, next_offset-le offset len)))

  -- The loop computes the number of chunks and, for each host, its first chunk and local offset.
  pub layout-LaidOut : (lens : List ℕ) → Fits max lens → LaidOut lens 0 0 (layout dir max lens)
  unfolding layout
  layout-LaidOut lens f =
      layout_from-LaidOut lens 0 0 f.positive f.each (omega (arith, f.bytes))
        (omega (arith, f.bytes))

-- A chunk of a host begins inside the host's block.
pub chunk_inside : (max len k : ℕ) → 0 < max → k < chunks_of max len → k * max < len
chunk_inside max len k p h =
    omega (arith, (le-div_iff_mul-le {k = max} {x = suc k} {y = len + max - 1} p).0 h)

-- A transfer whose lengths fit and whose blocks, local and remote, do not run past the address space.
pub record Placed (max local : ℕ) (remotes lens : List ℕ) : Type 0 where
  pub fits : Fits max lens
  pub hosts : length lens < word
  pub locals : local + sum lens ≤ word
  pub remotes_fit : (i : ℕ) → i < length lens → get_or remotes i 0 + get_or lens i 0 ≤ word

module _ (dir : TransferDirection) (max local : ℕ) (remotes lens : List ℕ) where
  abbrev pub table : ChunkTable
  table = chunk_table dir max local remotes lens

  -- The `k`-th chunk of host `i`.
  abbrev pub chunk_at : ℕ → ℕ → ChunkTask
  chunk_at i k = record {
    host_idx = i;
    local_addr = local + local_start dir lens i + k * max;
    remote_addr = get_or remotes i 0 + k * max;
    length = min max (get_or lens i 0 - k * max);
  }

  pub local_start-le : (i : ℕ) → local_start dir lens i ≤ bytes_before lens i
  local_start-le i = ground arith

  module _ (placed : Placed max local remotes lens) where
    open placed use {fits, locals, remotes_fit}

    laid : LaidOut dir max lens 0 0 (layout dir max lens)
    laid = layout-LaidOut dir max lens fits

    starts-IsMonotone : IsMonotone (layout dir max lens).host_chunk_starts
    starts-IsMonotone i j p q =
        omega (arith, laid.hosts, laid.starts i, laid.starts j, chunks_before_mono max lens i j p)

    start-IsLast :
        (i k : ℕ)
        → i < length lens
        → k < chunks_of max (get_or lens i 0)
        → IsLast (layout dir max lens).host_chunk_starts (chunks_before max lens i + k) i
    start-IsLast i k h q = record {
      inside = omega (arith, laid.hosts);
      at_most = omega (arith, laid.starts i h);
      above = λ j p r. omega (
        arith,
        laid.hosts,
        laid.starts j,
        chunks_before-suc max lens i h,
        chunks_before_mono max lens (suc i) j p,
      );
    }

    pub find_host_at :
        (i k : ℕ)
        → i < length lens
        → k < chunks_of max (get_or lens i 0)
        → find_host (layout dir max lens).host_chunk_starts (chunks_before max lens i + k) ≡ i
    find_host_at i k h q =
        IsLast-unique starts (chunks_before max lens i + k) _ i
          (find_host-IsLast starts (chunks_before max lens i + k)
            (omega (arith, laid.hosts, placed.hosts)) starts-IsMonotone (omega (arith, laid.hosts))
            (omega
              (arith, laid.starts 0 (omega arith), chunks_before_mono max lens 0 i (omega arith))))
          (start-IsLast i k h q)
      where
        starts : List ℕ
        starts = (layout dir max lens).host_chunk_starts

    -- The index of a chunk within its host.
    within :
        (i k : ℕ)
        → i < length lens
        → k < chunks_of max (get_or lens i 0)
        → sub64 (chunks_before max lens i + k) (get_or (layout dir max lens).host_chunk_starts i 0)
          ≡ k
    within i k h q = omega (
      arith,
      laid.starts i h,
      chunk_inside max (get_or lens i 0) k fits.positive q,
      bytes_before-le lens i h,
      fits.bytes,
      chunks_before-le-bytes max lens i fits.positive,
      chunks_of-le max (get_or lens i 0) fits.positive,
    )

    offset_exact :
        (i k : ℕ) → i < length lens → k < chunks_of max (get_or lens i 0) → mul64 k max ≡ k * max
    offset_exact i k h q = omega (
      arith,
      chunk_inside max (get_or lens i 0) k fits.positive q,
      bytes_before-le lens i h,
      fits.bytes,
    )

    chunk_of_host_at :
        (i k : ℕ)
        → i < length lens
        → k < chunks_of max (get_or lens i 0)
        → chunk_of_host table (chunks_before max lens i + k) i ≡ chunk_at i k
    unfolding chunk_of_host chunk_table
    chunk_of_host_at i k h q =
        rw (within i k h q, offset_exact i k h q, laid.offsets i h)
          (λ j. record {
            host_idx = i;
            local_addr = local_exact j;
            remote_addr = remote_exact j;
            length = length_exact j;
          })
      where
        inside : k * max < get_or lens i 0
        inside = chunk_inside max (get_or lens i 0) k fits.positive q

        local_exact :
            add64 (add64 local (0 + local_start dir lens i)) (k * max)
            ≡ local + local_start dir lens i + k * max
        local_exact = omega (arith, inside, local_start-le i, bytes_before-le lens i h, locals)

        remote_exact : add64 (get_or remotes i 0) (k * max) ≡ get_or remotes i 0 + k * max
        remote_exact = omega (arith, inside, remotes_fit i h)

        length_exact :
            (if ltb (sub64 (get_or lens i 0) (k * max)) max
              then sub64 (get_or lens i 0) (k * max)
              else max)
            ≡ min max (get_or lens i 0 - k * max)
        length_exact = ground (arith, inside, bytes_before-le lens i h, fits.bytes)

    -- `getChunk` at the `k`-th index of host `i` returns the `k`-th chunk of that host: nothing
    -- wraps, and zero-length hosts in between are skipped.
    pub get_chunk_at :
        (i k : ℕ)
        → i < length lens
        → k < chunks_of max (get_or lens i 0)
        → get_chunk table (chunks_before max lens i + k) ≡ chunk_at i k
    unfolding get_chunk chunk_table
    get_chunk_at i k h q = rw (find_host_at i k h q) (chunk_of_host_at i k h q)
