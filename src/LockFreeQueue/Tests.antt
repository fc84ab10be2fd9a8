-- ===== src/LockFreeQueue/Tests.antt =====
-- Two handles stored round the end of the array, and the theorems there.
use ucl_mpcomm.Common.{
  ◌==◌, if◌then◌else◌, length, ℕ, ◌+◌, ◌≡◌, ◌⊎◌, true, false, some, [], ◌∷◌, ◌++◌, arith,
}
use ucl_mpcomm.LockFreeQueue.{queue_size, LockFreeQueue, try_push, try_pop}
use ucl_mpcomm.LockFreeQueue.Refine.{IsValid, contents, try_push-stores, try_pop-oldest}

abbrev wrapped : LockFreeQueue
wrapped = record {
  buffer = λ i. if i == 4095 then 8 else if i == 0 then 9 else 0;
  head = 1;
  tail = 4095;
}

wrapped-IsValid : IsValid wrapped
wrapped-IsValid = omega arith

try_push-stores_example :
    let (b, q') = try_push 5 wrapped in
    IsValid q'
    × (((b ≡ false) × (q' ≡ wrapped) × (length (contents wrapped) + 1 ≡ queue_size))
        ⊎ ((b ≡ true) × (contents q' ≡ contents wrapped ++ (5 ∷ []))))
try_push-stores_example = try_push-stores 5 wrapped (omega arith) wrapped-IsValid

try_pop-oldest_example :
    ((contents wrapped ≡ []) × (try_pop wrapped ≡ some (0, wrapped)))
    ⊎ ((h : ℕ) × (q' : LockFreeQueue) × (try_pop wrapped ≡ some (h, q'))
        × (contents wrapped ≡ h ∷ contents q')
        × IsValid q')
try_pop-oldest_example = try_pop-oldest wrapped wrapped-IsValid
