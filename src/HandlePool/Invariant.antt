-- ===== src/HandlePool/Invariant.antt =====
-- What the pool owes its clients: handles in use are distinct and fit 16 bits, and none is lost.
use ucl_mpcomm.Common.{
  ltb, leb, ◌==◌, if◌then◌else◌, leb→le, Bool-cases, ℕ, ◌+◌, ◌≤◌, ◌≡◌, refl, ap, ◌≢◌, ◌⊎◌, inl, inr,
  ◌&&◌, List, [], ◌∷◌, arith,
}
use ucl_mpcomm.HandlePool.{
  HandlePool, new_pool, max_handle, min_handle, invalid_transfer_handle, allocate, release,
}

abbrev pub count : ℕ → List ℕ → ℕ
count h [] = 0
count h (x ∷ xs) = (if x == h then 1 else 0) + count h xs

-- Takes the first occurrence out.
abbrev pub erase : ℕ → List ℕ → List ℕ
erase h [] = []
erase h (x ∷ xs) = if x == h then xs else x ∷ erase h xs

pub count-erase :
    (h k : ℕ) (xs : List ℕ)
    → 1 ≤ count h xs
    → count k (erase h xs) + (if h == k then 1 else 0) ≡ count k xs
count-erase h k [] p = absurd (omega arith)
count-erase h k (x ∷ xs) p = ground (arith, count-erase h k xs)

-- 1 at a handle that has been given out at least once, and 0 elsewhere.
abbrev pub known : ℕ → ℕ → ℕ
known next h = if leb min_handle h && ltb h next then 1 else 0

-- `used` lists the handles that clients hold. Each known handle is free or in use, once.
pub record Inv (p : HandlePool) (used : List ℕ) : Type 0 where
  pub split : (h : ℕ) → count h p.free_list + count h used ≡ known p.next_new_handle h
  pub low : min_handle ≤ p.next_new_handle
  pub high : p.next_new_handle ≤ max_handle + 1

pub new_pool-Inv : Inv new_pool []
new_pool-Inv = record { split = λ h. ground arith; low = omega arith; high = omega arith }

abbrev pub AllInUse : List ℕ → Type 0
AllInUse used = (h : ℕ) → min_handle ≤ h → h ≤ max_handle → count h used ≡ 1

-- A handle that nobody holds, within 16 bits and not the invalid one, with the invariant kept.
abbrev pub IsFresh : List ℕ → ℕ × HandlePool → Type 0
IsFresh used (h, p) = (min_handle ≤ h) × (h ≤ max_handle) × (count h used ≡ 0) × Inv p (h ∷ used)

allocate_parts :
    (free : List ℕ) (next : ℕ) (used : List ℕ)
    → let p : HandlePool = record { free_list = free; next_new_handle = next } in
      Inv p used
      → IsFresh used (allocate p) ⊎ ((allocate p ≡ (invalid_transfer_handle, p)) × AllInUse used)
unfolding allocate
allocate_parts (h ∷ rest) next used v = inl (
  ground (arith, v.split h),
  ground (arith, v.split h, v.high),
  ground (arith, v.split h),
  record { split = λ k. omega (arith, v.split k); low = v.low; high = v.high },
)
allocate_parts [] next used v = elim (Bool-cases (leb next max_handle)) [
  | inl room ↦ rw room (
      inl (
        v.low,
        leb→le _ _ room,
        ground (arith, v.split next),
        record {
          split = λ k. ground (arith, v.split k, v.low);
          low = ground (arith, v.low);
          high = ground arith;
        },
      ))
  | inr full ↦ rw full (inr (refl, λ h l u. ground (arith, v.split h)))
]

-- `allocate` gives out a handle in 1..65535 that no client holds, and says "exhausted" (the invalid
-- handle, with the pool unchanged) only when all 65535 handles are in use.
pub allocate-IsFresh :
    (p : HandlePool) (used : List ℕ)
    → Inv p used
    → IsFresh used (allocate p) ⊎ ((allocate p ≡ (invalid_transfer_handle, p)) × AllInUse used)
allocate-IsFresh p used v = allocate_parts p.free_list p.next_new_handle used v

-- Returning a handle that is held keeps the invariant, with that handle no longer in use.
pub release-Inv :
    (p : HandlePool) (used : List ℕ) (h : ℕ)
    → Inv p used
    → 1 ≤ count h used
    → Inv (release h p) (erase h used)
unfolding release
release-Inv p used h v held = elim (Bool-cases (h == invalid_transfer_handle)) [
  | inl zero_h ↦ absurd (ground (arith, v.split h))
  | inr real ↦ rw real (record {
    split = λ k. ground (arith, v.split k, count-erase h k used held);
    low = v.low;
    high = v.high;
  })
]

-- A history of calls by clients that return only handles which they hold.
pub data Reach : HandlePool → List ℕ → Type 0 where
  start : Reach new_pool []
  allocates :
      {p : HandlePool} {used : List ℕ}
      → Reach p used
      → (allocate p).0 ≢ invalid_transfer_handle
      → Reach (allocate p).1 ((allocate p).0 ∷ used)
  releases :
      {p : HandlePool} {used : List ℕ} (h : ℕ)
      → Reach p used
      → 1 ≤ count h used
      → Reach (release h p) (erase h used)

pub Reach-Inv : {p : HandlePool} {used : List ℕ} → Reach p used → Inv p used
Reach-Inv start = new_pool-Inv
Reach-Inv (allocates {p} {used} r real) = elim (allocate-IsFresh p used (Reach-Inv r)) [
  | inl fresh ↦ fresh.3
  | inr (e, full) ↦ absurd (real (ap (λ (t : ℕ × HandlePool). t.0) e))
]
Reach-Inv (releases {p} {used} h r held) = release-Inv p used h (Reach-Inv r) held

-- After any such history no two clients hold the same handle, and all handles fit 16 bits.
pub Reach-distinct :
    {p : HandlePool} {used : List ℕ}
    → Reach p used
    → (h : ℕ) → 1 ≤ count h used
    → (count h used ≡ 1) × (min_handle ≤ h) × (h ≤ max_handle)
Reach-distinct r h held =
    let v = Reach-Inv r in
    (ground (arith, v.split h), ground (arith, v.split h), ground (arith, v.split h, v.high))

-- A handle that is returned twice is given out twice: the next two calls of `allocate` return it to
-- two clients, whatever the state of the pool.
pub release_twice :
    (p : HandlePool) (h : ℕ)
    → h ≢ invalid_transfer_handle
    → let p' = release h (release h p) in ((allocate p').0 ≡ h) × ((allocate (allocate p').1).0 ≡ h)
unfolding release allocate
release_twice p h real = (ground arith, ground arith)
