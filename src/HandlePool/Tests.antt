-- ===== src/HandlePool/Tests.antt =====
-- Runs of the handle pool, and its theorems at a pool with one free handle and two in use.
use ucl_mpcomm.Common.{◌≡◌, refl, ◌⊎◌, [], ◌∷◌, arith}
use ucl_mpcomm.HandlePool.{HandlePool, new_pool, invalid_transfer_handle, allocate}
use ucl_mpcomm.HandlePool.Invariant.{
  Inv, IsFresh, AllInUse, Reach, start, allocates, allocate-IsFresh,
}

abbrev second : HandlePool
second = record { free_list = []; next_new_handle = 3 }

first_two : (allocate (allocate new_pool).1).1 ≡ second
unfolding allocate
first_two = refl

full_pool :
    (allocate (record { free_list = []; next_new_handle = 65536 })).0 ≡ invalid_transfer_handle
unfolding allocate
full_pool = refl

history : Reach second (2 ∷ 1 ∷ [])
unfolding allocate
history = allocates (allocates start (λ e. omega arith)) (λ e. omega arith)

second-Inv : Inv second (2 ∷ 1 ∷ [])
second-Inv = record { split = λ h. ground arith; low = omega arith; high = omega arith }

allocate-IsFresh_example :
    IsFresh (2 ∷ 1 ∷ []) (allocate second)
    ⊎ ((allocate second ≡ (invalid_transfer_handle, second)) × AllInUse (2 ∷ 1 ∷ []))
allocate-IsFresh_example = allocate-IsFresh second (2 ∷ 1 ∷ []) second-Inv
