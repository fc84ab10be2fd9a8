-- ===== src/LockFreeQueue/Refine.antt =====
-- Call by call, the ring is a queue of at most 4095 handles, and `tryPop` never spins.
use ucl_mpcomm.Common.{
  length, All, ℕ, ◌+◌, ◌%◌, ◌<◌, ◌≡◌, sym, ap, ap₂, subst, ◌∙◌, ◌≢◌, ◌⊎◌, inl, inr, true, false,
  some, List, [], ◌∷◌, ◌++◌, arith, ℕ_discrete,
}
use ucl_mpcomm.Ring.{
  update, span, span-lt, span-full, between, between-pop, between-empty, between-push,
  between-update, window-update, length-window, next_cases, span_cases,
}
use ucl_mpcomm.LockFreeQueue.{queue_size, LockFreeQueue, new_queue, try_push, try_pop}

-- The handles stored, oldest first.
abbrev pub contents : LockFreeQueue → List ℕ
contents q = between queue_size q.buffer q.tail q.head

-- Indices inside the array, and a real handle in each slot of the queue.
pub record IsValid (q : LockFreeQueue) : Type 0 where
  pub head_in : q.head < queue_size
  pub tail_in : q.tail < queue_size
  pub stored : All (λ (h : ℕ). 0 < h) (contents q)

pub new_queue-IsValid : IsValid new_queue
new_queue-IsValid = omega arith

All-append :
    (xs : List ℕ) (x : ℕ)
    → All (λ (h : ℕ). 0 < h) xs
    → 0 < x
    → All (λ (h : ℕ). 0 < h) (xs ++ (x ∷ []))
All-append [] x a p = (p, tt)
All-append (y ∷ xs) x a p = (a.0, All-append xs x a.1 p)

between-try_push :
    (handle : ℕ) (q : LockFreeQueue)
    → IsValid q
    → (q.head + 1) % queue_size ≢ q.tail
    → between queue_size (update q.buffer q.head handle) q.tail ((q.head + 1) % queue_size)
      ≡ contents q ++ (handle ∷ [])
between-try_push handle q v room =
    between-push queue_size (update q.buffer q.head handle) q.tail q.head v.tail_in v.head_in room
    ∙ ap₂ (λ (l : List ℕ) a. l ++ (a ∷ []))
        (between-update queue_size q.buffer q.tail q.head handle v.tail_in v.head_in) (ground arith)

between-try_pop :
    (q : LockFreeQueue)
    → IsValid q
    → q.tail ≢ q.head
    → contents q
      ≡ q.buffer q.tail
        ∷ between queue_size (update q.buffer q.tail 0) ((q.tail + 1) % queue_size) q.head
between-try_pop q v ne =
    let next : (q.tail + 1) % queue_size < queue_size =
      omega (arith, next_cases queue_size q.tail v.tail_in) in
    between-pop queue_size q.buffer q.tail q.head v.tail_in v.head_in ne
    ∙ ap (λ (l : List ℕ). q.buffer q.tail ∷ l)
        {y = between queue_size (update q.buffer q.tail 0) ((q.tail + 1) % queue_size) q.head}
        (sym (
          window-update queue_size q.buffer (span queue_size ((q.tail + 1) % queue_size) q.head)
            ((q.tail + 1) % queue_size) q.tail 0 next v.tail_in
            (omega (
              arith,
              span-lt queue_size ((q.tail + 1) % queue_size) q.head next v.head_in,
              next_cases queue_size q.tail v.tail_in,
              span_cases queue_size ((q.tail + 1) % queue_size) q.tail next v.tail_in,
            ))))

-- `tryPush` of a handle refuses exactly when 4095 handles are stored, with no change; otherwise the
-- handle is stored last.
pub try_push-stores :
    (handle : ℕ) (q : LockFreeQueue)
    → 0 < handle
    → IsValid q
    → let (b, q') = try_push handle q in
      IsValid q'
      × (((b ≡ false) × (q' ≡ q) × (length (contents q) + 1 ≡ queue_size))
          ⊎ ((b ≡ true) × (contents q' ≡ contents q ++ (handle ∷ []))))
unfolding try_push
try_push-stores handle q p v = elim (ℕ_discrete ((q.head + 1) % queue_size) q.tail) [
  | yes full ↦
      let len : length (contents q) + 1 ≡ queue_size = omega (
        arith,
        length-window queue_size q.buffer q.tail (span queue_size q.tail q.head),
        (span-full queue_size q.tail q.head v.tail_in v.head_in).0 full,
      ) in
      ground (arith, full, len)
  | no room ↦
      let e = between-try_push handle q v room in
      let a = All-append (contents q) handle v.stored p in
      let r = next_cases queue_size q.head v.head_in in ground (arith, room, e, a, r)
]

-- `tryPop` returns at once: the invalid handle from the empty queue, with no change, and otherwise
-- the oldest handle, which it takes out.
pub try_pop-oldest :
    (q : LockFreeQueue)
    → IsValid q
    → ((contents q ≡ []) × (try_pop q ≡ some (0, q)))
      ⊎ ((h : ℕ) × (q' : LockFreeQueue) × (try_pop q ≡ some (h, q'))
          × (contents q ≡ h ∷ contents q')
          × IsValid q')
unfolding try_pop
try_pop-oldest q v = elim (ℕ_discrete q.tail q.head) [
  | yes empty ↦ inl (
    between-empty queue_size q.buffer q.tail q.head v.tail_in v.head_in empty,
    ground (arith, empty),
  )
  | no some_handle ↦
      let e = between-try_pop q v some_handle in
      let a = subst (All (λ (h : ℕ). 0 < h)) e v.stored in
      inr (
        q.buffer q.tail,
        record q { buffer = update q.buffer q.tail 0; tail = (q.tail + 1) % queue_size },
        ground (arith, some_handle, a.0),
        e,
        record {
          head_in = v.head_in;
          tail_in = omega (arith, next_cases queue_size q.tail v.tail_in);
          stored = a.1;
        },
      )
]
