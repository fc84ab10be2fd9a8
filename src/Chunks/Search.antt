-- ===== src/Chunks/Search.antt =====
-- The binary search of `getChunk` ends within its fuel, at the last host that begins at or below the
-- chunk. Hosts without a chunk of their own are passed over.
use ucl_mpcomm.Common.{
  ltb, leb, ltb→lt, leb→le, leb→gt, tests, Bool-cases, length, get_or, word, add64, sub64, ℕ, zero,
  suc, ◌+◌, ◌-◌, ◌/◌, ◌≤◌, ◌<◌, ◌≡◌, refl, ◌⊎◌, inl, inr, List, arith,
}
use ucl_mpcomm.Chunks.{search_host, find_host}

abbrev pub IsMonotone : List ℕ → Type 0
IsMonotone starts = (i j : ℕ) → i ≤ j → j < length starts → get_or starts i 0 ≤ get_or starts j 0

-- `r` is the last index whose entry is at most `idx`.
pub record IsLast (starts : List ℕ) (idx r : ℕ) : Type 0 where
  pub inside : r < length starts
  pub at_most : get_or starts r 0 ≤ idx
  pub above : (j : ℕ) → r < j → j < length starts → idx < get_or starts j 0

pub IsLast-unique :
    (starts : List ℕ) (idx r s : ℕ) → IsLast starts idx r → IsLast starts idx s → r ≡ s
IsLast-unique starts idx r s p q = ground (arith, p.above s, q.above r)

module _ (starts : List ℕ) (idx : ℕ) (short : length starts < word) where
  -- What the loop knows at its head: everything from `hi` on is above `idx`, and `host_idx` is the
  -- last index below `lo`, at most `idx`.
  record Knows (lo hi host_idx : ℕ) : Type 0 where
    ordered : lo ≤ hi
    in_range : hi ≤ length starts
    above : (j : ℕ) → hi ≤ j → j < length starts → idx < get_or starts j 0
    below : ((lo ≡ 0) × (0 < hi)) ⊎ ((suc host_idx ≡ lo) × (get_or starts host_idx 0 ≤ idx))

  module _ (mono : IsMonotone starts) (first : get_or starts 0 0 ≤ idx) where
    search_host-IsLast :
        (fuel lo hi host_idx : ℕ)
        → hi - lo ≤ fuel
        → Knows lo hi host_idx
        → IsLast starts idx (search_host starts idx fuel lo hi host_idx)
    unfolding search_host
    search_host-IsLast zero lo hi h f k = ground (arith, k.below, k.above)
    search_host-IsLast (suc fuel) lo hi h f k =
        let mid = add64 lo (sub64 hi lo / 2) in
        elim (Bool-cases (ltb lo hi)) [
          | inr done ↦ rw (done, search_host) (ground (arith, k.below, k.above))
          | inl more ↦
              let lt : lo < hi = ltb→lt lo hi more in
              let half : mid ≡ lo + (hi - lo) / 2 = omega (arith, k.in_range) in
              elim (Bool-cases (leb (get_or starts mid 0) idx)) [
                | inl low ↦
                    rw (more, low, search_host)
                      (search_host-IsLast fuel (add64 mid 1) hi mid (omega (arith, k.in_range))
                        (record {
                          ordered = omega (arith, k.in_range);
                          in_range = k.in_range;
                          above = k.above;
                          below = inr (omega (arith, k.in_range), leb→le _ _ low);
                        }))
                | inr high ↦
                    rw (more, high, search_host)
                      (search_host-IsLast fuel lo mid h (omega arith) (record {
                        ordered = omega arith;
                        in_range = omega (arith, k.in_range);
                        above = λ j p q. omega (tests, leb→gt _ _ high, mono mid j p q);
                        below = ground (arith, k.below, first, high);
                      }))
              ]
        ]

  -- `find_host` finds the last host whose first chunk is at most the index.
  pub find_host-IsLast :
      IsMonotone starts
      → 0 < length starts
      → get_or starts 0 0 ≤ idx
      → IsLast starts idx (find_host starts idx)
  unfolding find_host
  find_host-IsLast mono some_host first =
      search_host-IsLast mono first (length starts) 0 (length starts) 0 (omega arith) (record {
        ordered = omega arith;
        in_range = omega arith;
        above = λ j p q. absurd (omega arith);
        below = inl (refl, some_host);
      })
