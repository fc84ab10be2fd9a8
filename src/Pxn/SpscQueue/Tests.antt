-- ===== src/Pxn/SpscQueue/Tests.antt =====
-- A ring of two items, and its theorems there.
use ucl_mpcomm.Common.{
  ◌==◌, if◌then◌else◌, ℕ, ◌≤◌, ◌≡◌, refl, ◌↔◌, true, false, [], ◌∷◌, ◌++◌, arith,
}
use ucl_mpcomm.Pxn.SpscQueue.{SpscQueue, try_push, try_pop, size_approx, is_empty}
use ucl_mpcomm.Pxn.SpscQueue.Refine.{
  push, pop, IsValid, contents, try_push_refines, try_pop_refines, size_approx-length,
}
use ucl_mpcomm.Pxn.SpscQueue.Threads.{
  Producer, Consumer, System, Reach, start, later, push_check, push_write, push_publish, pop_check,
  Reach-fifo,
}

-- 8, then 9, round the end of the array.
abbrev wrapped : SpscQueue ℕ
wrapped = record { buffer = λ i. if i == 2 then 8 else 9; head = 2; tail = 1 }

wrapped-IsValid : IsValid 2 wrapped
wrapped-IsValid = omega arith

full_ring : (try_push 2 7 wrapped).0 ≡ false
unfolding try_push
full_ring = refl

try_push_refines_example :
    let (b, q') = try_push 2 7 wrapped in
    ((b, contents 2 q') ≡ push 2 7 (8 ∷ 9 ∷ [])) × IsValid 2 q'
try_push_refines_example = try_push_refines 2 7 wrapped wrapped-IsValid

try_pop_refines_example :
    let (o, q') = try_pop 2 wrapped in ((o, contents 2 q') ≡ pop (8 ∷ 9 ∷ [])) × IsValid 2 q'
try_pop_refines_example = try_pop_refines 2 wrapped wrapped-IsValid

size_approx-length_example :
    (size_approx 2 wrapped ≡ 2) × ((is_empty wrapped ≡ true) ↔ (contents 2 wrapped ≡ []))
size_approx-length_example = size_approx-length 2 wrapped wrapped-IsValid

-- One item is in, and each thread has passed its test.
abbrev busy : System ℕ
busy = record {
  queue = record { buffer = λ i. if 0 == i then 5 else 0; head = 0; tail = 1 };
  producer = Producer.checked 6 1 2;
  consumer = Consumer.checked 0;
  pushed = 5 ∷ [];
  popped = [];
}

busy-Reach : Reach 2 (λ _. 0) busy
busy-Reach =
    later
      (later
        (later (later (later start (push_check 5 refl (omega arith))) (push_write 5 0 1 refl))
          (push_publish 5 0 1 refl))
        (push_check 6 refl (omega arith)))
      (pop_check refl (omega arith))

Reach-fifo_example : (busy.pushed ≡ busy.popped ++ (5 ∷ [])) × (1 ≤ 2)
Reach-fifo_example = Reach-fifo 2 busy-Reach
