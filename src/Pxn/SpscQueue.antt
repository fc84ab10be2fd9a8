-- ===== src/Pxn/SpscQueue.antt =====
-- `SpscQueue<T, Capacity>` of src/mpcomm_pxn.h: a ring of `Capacity + 1` slots, one of them kept
-- free. Here each call runs alone; the children prove what that means and interleave the threads.
-- Both indices stay at most `Capacity`, so the `+ 1` of the source cannot wrap.
pub mod Refine
pub mod Threads
mod Tests
use ucl_mpcomm.Common.{
  leb, ◌==◌, if◌then◌else◌, ℕ, ◌+◌, ◌-◌, ◌%◌, Bool, true, false, Option, none, some,
}
use ucl_mpcomm.Ring.{update}

pub record SpscQueue {ℓ} (T : Type ℓ) : Type ℓ where
  pub buffer : ℕ → T
  pub head : ℕ
  pub tail : ℕ

-- The constructor leaves the slots as they are.
abbrev pub new_queue {ℓ} : {T : Type ℓ} → (ℕ → T) → SpscQueue T
new_queue slots = record { buffer = slots; head = 0; tail = 0 }

module _ {ℓ} {T : Type ℓ} (capacity : ℕ) where
  unfoldable pub try_push : T → SpscQueue T → Bool × SpscQueue T
  try_push item q =
      let next_tail = (q.tail + 1) % (capacity + 1) in
      if next_tail == q.head
      then (false, q)
      else (true, record q { buffer = update q.buffer q.tail item; tail = next_tail })

  unfoldable pub try_pop : SpscQueue T → Option T × SpscQueue T
  try_pop q =
      if q.head == q.tail
      then (none, q)
      else (some (q.buffer q.head), record q { head = (q.head + 1) % (capacity + 1) })

  unfoldable pub size_approx : SpscQueue T → ℕ
  size_approx q = if leb q.head q.tail then q.tail - q.head else capacity + 1 - q.head + q.tail

unfoldable pub is_empty {ℓ} : {T : Type ℓ} → SpscQueue T → Bool
is_empty q = q.head == q.tail
