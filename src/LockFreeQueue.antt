-- ===== src/LockFreeQueue.antt =====
-- `LockFreeQueue` of src/mpcomm.cpp: the ring of transfer handles between the callers and a worker.
-- Each call runs alone: no other producer takes the slot between the load and the compare-exchange.
pub mod Refine
mod Tests
use ucl_mpcomm.Common.{◌==◌, if◌then◌else◌, ℕ, ◌+◌, ◌%◌, Bool, true, false, Option, none, some}
use ucl_mpcomm.Ring.{update}

-- `kLockFreeQueueSize`
abbrev pub queue_size : ℕ
queue_size = 4096

-- `head` is where producers write, `tail` where the worker reads. A slot that holds 0, the invalid
-- handle, is empty.
pub record LockFreeQueue : Type 0 where
  pub buffer : ℕ → ℕ
  pub head : ℕ
  pub tail : ℕ

abbrev pub new_queue : LockFreeQueue
new_queue = record { buffer = λ _. 0; head = 0; tail = 0 }

-- With no other producer in between, the compare-exchange succeeds in the first round.
unfoldable pub try_push : ℕ → LockFreeQueue → Bool × LockFreeQueue
try_push handle q =
    let next_head = (q.head + 1) % queue_size in
    if next_head == q.tail
    then (false, q)
    else (true, record q { buffer = update q.buffer q.head handle; head = next_head })

-- `none` is a call that spins on an empty slot; 0 is the invalid handle, for an empty queue.
unfoldable pub try_pop : LockFreeQueue → Option (ℕ × LockFreeQueue)
try_pop q =
    if q.tail == q.head
    then some (0, q)
    else if q.buffer q.tail == 0
    then none
    else some (
      q.buffer q.tail,
      record q { buffer = update q.buffer q.tail 0; tail = (q.tail + 1) % queue_size },
    )

unfoldable pub is_empty : LockFreeQueue → Bool
is_empty q = q.tail == q.head
