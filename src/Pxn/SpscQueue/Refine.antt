-- ===== src/Pxn/SpscQueue/Refine.antt =====
-- Call by call, the ring is a queue of at most `Capacity` items.
use ucl_mpcomm.Common.{
  ◌==◌, if◌then◌else◌, length, ℕ, ◌+◌, ◌%◌, ◌<◌, ◌≡◌, refl, ap, ap₂, ◌∙◌, ◌≢◌, ◌↔◌, Bool, true,
  false, Option, none, some, List, [], ◌∷◌, ◌++◌, arith, ℕ_discrete,
}
use ucl_mpcomm.Ring.{
  update, span, span-full, span_cases, between, between-pop, between-empty, between-push,
  between-update, length-window, next_cases, span-eq-zero,
}
use ucl_mpcomm.Pxn.SpscQueue.{SpscQueue, new_queue, try_push, try_pop, size_approx, is_empty}

module _ {ℓ} {T : Type ℓ} where
  -- The bounded queue, oldest item first.
  abbrev pub push : ℕ → T → List T → Bool × List T
  push capacity item items =
      if length items == capacity then (false, items) else (true, items ++ (item ∷ []))

  abbrev pub pop : List T → Option T × List T
  pop [] = (none, [])
  pop (item ∷ items) = (some item, items)

module _ {T : Type 0} (capacity : ℕ) where
  -- Both indices are slots of the array, so no access is out of range.
  pub record IsValid (q : SpscQueue T) : Type 0 where
    pub head_in : q.head < capacity + 1
    pub tail_in : q.tail < capacity + 1

  abbrev pub contents : SpscQueue T → List T
  contents q = between (capacity + 1) q.buffer q.head q.tail

  pub new_queue-contents :
      (slots : ℕ → T) → IsValid (new_queue slots) × (contents (new_queue slots) ≡ [])
  new_queue-contents slots =
      (omega arith, between-empty (capacity + 1) slots 0 0 (omega arith) (omega arith) refl)

  -- The slot behind the last item, once written, holds the newest item.
  pub between-try_push :
      (item : T) (q : SpscQueue T)
      → IsValid q
      → (q.tail + 1) % (capacity + 1) ≢ q.head
      → between (capacity + 1) (update q.buffer q.tail item) q.head ((q.tail + 1) % (capacity + 1))
        ≡ contents q ++ (item ∷ [])
  between-try_push item q v room =
      between-push (capacity + 1) (update q.buffer q.tail item) q.head q.tail v.head_in v.tail_in
        room
      ∙ ap₂ (λ l a. l ++ (a ∷ []))
          (between-update (capacity + 1) q.buffer q.head q.tail item v.head_in v.tail_in)
          (ground arith)

  -- `tryPush` answers as the bounded queue does, leaves its contents, and keeps both indices inside
  -- the array.
  pub try_push_refines :
      (item : T) (q : SpscQueue T)
      → IsValid q
      → let (b, q') = try_push capacity item q in
        ((b, contents q') ≡ push capacity item (contents q)) × IsValid q'
  unfolding try_push
  try_push_refines item q v = elim (ℕ_discrete ((q.tail + 1) % (capacity + 1)) q.head) [
    | yes full ↦ ground (
      arith,
      full,
      length-window (capacity + 1) q.buffer q.head (span (capacity + 1) q.head q.tail),
      (span-full (capacity + 1) q.head q.tail v.head_in v.tail_in).0 full,
    )
    | no room ↦ ground (
      arith,
      room,
      length-window (capacity + 1) q.buffer q.head (span (capacity + 1) q.head q.tail),
      (span-full (capacity + 1) q.head q.tail v.head_in v.tail_in).1,
      between-try_push item q v room,
      next_cases (capacity + 1) q.tail v.tail_in,
    )
  ]

  -- `tryPop` takes the oldest item, and answers "empty" exactly on the empty queue.
  pub try_pop_refines :
      (q : SpscQueue T)
      → IsValid q
      → let (o, q') = try_pop capacity q in ((o, contents q') ≡ pop (contents q)) × IsValid q'
  unfolding try_pop
  try_pop_refines q v = elim (ℕ_discrete q.head q.tail) [
    | yes empty ↦
        ground
          (arith, between-empty (capacity + 1) q.buffer q.head q.tail v.head_in v.tail_in empty)
    | no some_item ↦ ground (
      arith,
      between-pop (capacity + 1) q.buffer q.head q.tail v.head_in v.tail_in some_item,
      next_cases (capacity + 1) q.head v.head_in,
    )
  ]

  -- With no thread between two loads, `sizeApprox` is exact, and `empty` says whether it is 0.
  pub size_approx-length :
      (q : SpscQueue T)
      → IsValid q
      → (size_approx capacity q ≡ length (contents q)) × ((is_empty q ≡ true) ↔ (contents q ≡ []))
  unfolding size_approx is_empty
  size_approx-length q v = (
    ground (
      arith,
      span_cases (capacity + 1) q.head q.tail v.head_in v.tail_in,
      length-window (capacity + 1) q.buffer q.head (span (capacity + 1) q.head q.tail),
    ),
    (
      λ e. between-empty (capacity + 1) q.buffer q.head q.tail v.head_in v.tail_in (ground arith),
      λ e. ground (
        arith,
        ap length e,
        length-window (capacity + 1) q.buffer q.head (span (capacity + 1) q.head q.tail),
        (span-eq-zero (capacity + 1) q.head q.tail v.head_in v.tail_in).0,
      ),
    ),
  )

-- A client's calls, and what each returns: whether a push was accepted, or what was popped.
pub data Op (T : Type 0) : Type 0 where
  push_op : T → Op T
  pop_op : Op T

pub data Reply (T : Type 0) : Type 0 where
  pushed : Bool → Reply T
  popped : Option T → Reply T

module _ {T : Type 0} (capacity : ℕ) where
  unfoldable pub run : SpscQueue T → List (Op T) → List (Reply T)
  run q [] = []
  run q (push_op item ∷ ops) = let (b, q') = try_push capacity item q in pushed b ∷ run q' ops
  run q (pop_op ∷ ops) = let (o, q') = try_pop capacity q in popped o ∷ run q' ops

  unfoldable pub run_list : List T → List (Op T) → List (Reply T)
  run_list items [] = []
  run_list items (push_op item ∷ ops) =
      let (b, items') = push capacity item items in pushed b ∷ run_list items' ops
  run_list items (pop_op ∷ ops) = let (o, items') = pop items in popped o ∷ run_list items' ops

  -- No sequence of calls tells a valid ring from the bounded queue of its contents.
  pub run_refines :
      (ops : List (Op T)) (q : SpscQueue T)
      → IsValid capacity q
      → run q ops ≡ run_list (contents capacity q) ops
  unfolding run run_list
  run_refines [] q v = refl
  run_refines (push_op item ∷ ops) q v =
      let (e, v') = try_push_refines capacity item q v in rw (run_refines ops _ v', ← e)
  run_refines (pop_op ∷ ops) q v =
      let (e, v') = try_pop_refines capacity q v in rw (run_refines ops _ v', ← e)
