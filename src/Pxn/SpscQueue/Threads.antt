-- ===== src/Pxn/SpscQueue/Threads.antt =====
-- One thread pushes and one pops, interleaved at each access of a shared index or slot. A load of a
-- thread's own index, which the other thread never writes, is one step with the load that follows.
use ucl_mpcomm.Common.{
  length, ℕ, ◌+◌, ◌%◌, ◌≤◌, ◌<◌, ◌≡◌, refl, sym, ◌≢◌, List, [], ◌∷◌, ◌++◌, arith,
}
use mathlib.Core.List.{append_assoc}
use ucl_mpcomm.Ring.{
  update, span, span-lt, between, between-pop, between-empty, between-push, between-update,
  length-window, next_cases, next-ne,
}
use ucl_mpcomm.Pxn.SpscQueue.{SpscQueue, new_queue}

module _ (T : Type 0) where
  -- Where `tryPush` stands, with its local variables.
  pub data Producer : Type 0 where
    idle : Producer
    checked written : (item : T) (cur_tail next_tail : ℕ) → Producer

  -- Where `tryPop` stands.
  pub data Consumer : Type 0 where
    idle : Consumer
    checked : (cur_head : ℕ) → Consumer
    loaded : (cur_head : ℕ) (item : T) → Consumer

  -- `pushed` and `popped` record the items that calls have put in and handed out, oldest first.
  pub record System : Type 0 where
    pub queue : SpscQueue T
    pub producer : Producer
    pub consumer : Consumer
    pub pushed : List T
    pub popped : List T

abbrev pub next_slot : ℕ → ℕ → ℕ
next_slot capacity i = (i + 1) % (capacity + 1)

module _ {T : Type 0} (capacity : ℕ) where
  pub data Step (s : System T) : System T → Type 0 where
    push_full :
        s.producer ≡ Producer.idle → next_slot capacity s.queue.tail ≡ s.queue.head → Step s s
    push_check :
        (item : T)
        → s.producer ≡ Producer.idle
        → next_slot capacity s.queue.tail ≢ s.queue.head
        → Step s (record s {
          producer = Producer.checked item s.queue.tail (next_slot capacity s.queue.tail);
        })
    push_write :
        (item : T) (cur_tail next_tail : ℕ)
        → s.producer ≡ Producer.checked item cur_tail next_tail
        → Step s (record s {
          queue = record {
            buffer = update s.queue.buffer cur_tail item;
            head = s.queue.head;
            tail = s.queue.tail;
          };
          producer = Producer.written item cur_tail next_tail;
        })
    push_publish :
        (item : T) (cur_tail next_tail : ℕ)
        → s.producer ≡ Producer.written item cur_tail next_tail
        → Step s (record s {
          queue = record { buffer = s.queue.buffer; head = s.queue.head; tail = next_tail };
          producer = Producer.idle;
          pushed = s.pushed ++ (item ∷ []);
        })
    pop_empty : s.consumer ≡ Consumer.idle → s.queue.head ≡ s.queue.tail → Step s s
    pop_check :
        s.consumer ≡ Consumer.idle
        → s.queue.head ≢ s.queue.tail
        → Step s (record s { consumer = Consumer.checked s.queue.head })
    pop_read :
        (cur_head : ℕ)
        → s.consumer ≡ Consumer.checked cur_head
        → Step s (record s { consumer = Consumer.loaded cur_head (s.queue.buffer cur_head) })
    pop_release :
        (cur_head : ℕ) (item : T)
        → s.consumer ≡ Consumer.loaded cur_head item
        → Step s (record s {
          queue = record {
            buffer = s.queue.buffer;
            head = next_slot capacity cur_head;
            tail = s.queue.tail;
          };
          consumer = Consumer.idle;
          popped = s.popped ++ (item ∷ []);
        })

  abbrev init : (ℕ → T) → System T
  init slots = record {
    queue = new_queue slots;
    producer = Producer.idle;
    consumer = Consumer.idle;
    pushed = [];
    popped = [];
  }

  pub data Reach (slots : ℕ → T) : System T → Type 0 where
    start : Reach slots (init slots)
    later : {s t : System T} → Reach slots s → Step s t → Reach slots t

  abbrev stored : SpscQueue T → List T
  stored q = between (capacity + 1) q.buffer q.head q.tail

  -- What the locals of each thread say about the shared queue.
  abbrev ProducerKnows : SpscQueue T → Producer T → Type 0
  ProducerKnows q Producer.idle = Unit
  ProducerKnows q (Producer.checked item cur_tail next_tail) =
      (cur_tail ≡ q.tail)
      × (next_tail ≡ next_slot capacity q.tail)
      × (next_slot capacity q.tail ≢ q.head)
  ProducerKnows q (Producer.written item cur_tail next_tail) =
      (cur_tail ≡ q.tail)
      × (next_tail ≡ next_slot capacity q.tail)
      × (next_slot capacity q.tail ≢ q.head)
      × (q.buffer q.tail ≡ item)

  abbrev ConsumerKnows : SpscQueue T → Consumer T → Type 0
  ConsumerKnows q Consumer.idle = Unit
  ConsumerKnows q (Consumer.checked cur_head) = (cur_head ≡ q.head) × (q.head ≢ q.tail)
  ConsumerKnows q (Consumer.loaded cur_head item) =
      (cur_head ≡ q.head) × (q.head ≢ q.tail) × (item ≡ q.buffer q.head)

  pub record Inv (s : System T) : Type 0 where
    pub head_in : s.queue.head < capacity + 1
    pub tail_in : s.queue.tail < capacity + 1
    pub fifo : s.pushed ≡ s.popped ++ stored s.queue
    pub producing : ProducerKnows s.queue s.producer
    pub consuming : ConsumerKnows s.queue s.consumer

  init-Inv : (slots : ℕ → T) → Inv (init slots)
  init-Inv slots = record {
    head_in = omega arith;
    tail_in = omega arith;
    fifo = sym (between-empty (capacity + 1) slots 0 0 (omega arith) (omega arith) refl);
    producing = tt;
    consuming = tt;
  }

  Step-Inv : {s t : System T} → Step s t → Inv s → Inv t
  Step-Inv (push_full e f) v = v
  Step-Inv {s} (push_check item e f) v = ground (arith, v.fifo, v.consuming)
  Step-Inv {s} (push_write item ct nt e) v = ground (
    arith,
    e,
    v.producing,
    v.consuming,
    v.fifo,
    v.head_in,
    v.tail_in,
    between-update (capacity + 1) s.queue.buffer s.queue.head s.queue.tail item v.head_in v.tail_in,
  )
  Step-Inv {s} (push_publish item ct nt e) v = ground (
    arith,
    e,
    v.producing,
    v.consuming,
    v.fifo,
    v.head_in,
    v.tail_in,
    next_cases (capacity + 1) s.queue.tail v.tail_in,
    between-push (capacity + 1) s.queue.buffer s.queue.head s.queue.tail v.head_in v.tail_in,
    append_assoc s.popped (stored s.queue) (item ∷ []),
  )
  Step-Inv (pop_empty e f) v = v
  Step-Inv {s} (pop_check e f) v = ground (arith, v.fifo, v.producing)
  Step-Inv {s} (pop_read ch e) v = ground (arith, e, v.fifo, v.producing, v.consuming)
  Step-Inv {s} (pop_release ch item e) v = ground (
    arith,
    e,
    v.producing,
    v.consuming,
    v.fifo,
    v.head_in,
    v.tail_in,
    next_cases (capacity + 1) s.queue.head v.head_in,
    next-ne (capacity + 1) s.queue.head s.queue.tail v.head_in v.tail_in,
    between-pop (capacity + 1) s.queue.buffer s.queue.head s.queue.tail v.head_in v.tail_in,
    append_assoc s.popped (item ∷ [])
        (between (capacity + 1) s.queue.buffer (next_slot capacity s.queue.head) s.queue.tail),
  )

  pub Reach-Inv : {slots : ℕ → T} {s : System T} → Reach slots s → Inv s
  Reach-Inv {slots} start = init-Inv slots
  Reach-Inv (later r st) = Step-Inv st (Reach-Inv r)

  -- First in, first out, in every interleaving: the items pushed are those popped, in the same
  -- order, followed by the ones still stored. Nothing is lost, duplicated or made up, and at most
  -- `capacity` items are stored.
  pub Reach-fifo :
      {slots : ℕ → T} {s : System T}
      → Reach slots s
      → (s.pushed ≡ s.popped ++ stored s.queue) × (length (stored s.queue) ≤ capacity)
  Reach-fifo {s} r =
      let v = Reach-Inv r in
      (
        v.fifo,
        omega (
          arith,
          length-window (capacity + 1) s.queue.buffer s.queue.head
              (span (capacity + 1) s.queue.head s.queue.tail),
          span-lt (capacity + 1) s.queue.head s.queue.tail v.head_in v.tail_in,
        ),
      )

  -- The threads never touch one slot at a time: when the producer is about to write a slot and the
  -- consumer to read one, the slots differ, and both are inside the array.
  pub no_race :
      {slots : ℕ → T} {s : System T}
      → Reach slots s
      → (item : T) (cur_tail next_tail cur_head : ℕ)
      → s.producer ≡ Producer.checked item cur_tail next_tail
      → s.consumer ≡ Consumer.checked cur_head
      → (cur_tail ≢ cur_head) × (cur_tail < capacity + 1) × (cur_head < capacity + 1)
  no_race r item ct nt ch e f =
      let v = Reach-Inv r in ground (arith, e, f, v.producing, v.consuming, v.head_in, v.tail_in)
