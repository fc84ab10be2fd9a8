-- ===== src/Transfer/Start.antt =====
-- Starting a transfer: a fresh handle, its context in the map, and the handle in its worker's queue.
use ucl_mpcomm.Common.{
  ◌==◌, if◌then◌else◌, length, ℕ, ◌+◌, ◌≤◌, ◌<◌, ◌≡◌, refl, sym, ap, ap₂, subst, ◌∙◌, ◌≢◌, ◌⊎◌, inl,
  inr, true, Option, none, some, List, [], ◌∷◌, ◌++◌, arith, ℕ_discrete,
}
use ucl_mpcomm.HandlePool.{HandlePool, allocate, invalid_transfer_handle, max_handle, min_handle}
use ucl_mpcomm.HandlePool.Invariant as Pool
use ucl_mpcomm.HandlePool.Invariant.{count, IsFresh, AllInUse, allocate-IsFresh}
use ucl_mpcomm.LockFreeQueue.{queue_size, try_push}
use ucl_mpcomm.LockFreeQueue.Refine.{IsValid, contents, try_push-stores}
use ucl_mpcomm.Chunks.{TransferDirection}
use ucl_mpcomm.Transfer.{
  TransferContext, Setup, State, select_worker_for_numa, make_context, store_context, submit,
  transfer_async_start, find_context, put,
}
use ucl_mpcomm.Transfer.Laws.{Inv, find_context-store}

-- Every worker's queue is well formed and has room for one handle.
pub record Ready (s : State) : Type 0 where
  pub valid : (w : ℕ) → IsValid (s.worker_queues w)
  pub room : (w : ℕ) → length (contents (s.worker_queues w)) + 1 < queue_size

-- A context stored under a fresh handle.
stored-Inv :
    (s s' : State) (used : List ℕ) (h : ℕ) (ctx : TransferContext)
    → Inv s used
    → Pool.Inv s'.handle_pool (h ∷ used)
    → count h used ≡ 0
    → ctx.handle ≡ h
    → ((k : ℕ) → find_context s' k ≡ (if k == h then some ctx else find_context s k))
    → Inv s' (h ∷ used)
stored-Inv s s' used h ctx v p fresh named f = record {
  pool = p;
  absent = λ k e. f k ∙ ground (arith, e, v.absent k);
  present = λ k e. elim (ℕ_discrete k h) [
    | yes same ↦ (ctx, f k ∙ ground (arith, same), named ∙ sym same)
    | no other ↦
        let (c, found, n) = v.present k (ground (arith, e, other)) in
        (c, f k ∙ ground (arith, other, found), n)
  ];
}

module _ (setup : Setup) (round_robin : ℕ) (s : State) (local_addr : ℕ) (host_list : List (List ℕ))
    (remote_addrs lengths : List ℕ) (direction : TransferDirection) where
  -- An initialised library with a NIC, and as many addresses and lengths as hosts, at least one.
  pub record IsAccepted : Type 0 where
    pub initialized : setup.initialized ≡ true
    pub some_host : 0 < length host_list
    pub addrs : length remote_addrs ≡ length host_list
    pub lens : length lengths ≡ length host_list
    pub some_nic : 0 < length setup.nic_names

  abbrev pub start : Option (ℕ × State)
  start =
      transfer_async_start setup round_robin s local_addr host_list remote_addrs lengths direction

  -- The handle that the pool gives out, and the context made for it.
  abbrev pub new_handle : ℕ
  new_handle = (allocate s.handle_pool).0

  abbrev pub new_context : TransferContext
  new_context = make_context setup s new_handle local_addr host_list remote_addrs lengths direction

  abbrev allocated : State
  allocated = record s { handle_pool = (allocate s.handle_pool).1 }

  abbrev pub worker : ℕ
  worker = select_worker_for_numa setup.num_numa_nodes new_context.numa_id round_robin

  module _ (ok : IsAccepted) where
    start-exhausted :
        new_handle ≡ invalid_transfer_handle → start ≡ some (invalid_transfer_handle, allocated)
    unfolding transfer_async_start
    start-exhausted e =
        ground (arith, e, ok.initialized, ok.some_host, ok.addrs, ok.lens, ok.some_nic)

    start-empty :
        new_handle ≢ invalid_transfer_handle
        → new_context.total_chunks ≡ 0
        → start ≡ some (new_handle, store_context new_context allocated)
    unfolding transfer_async_start
    start-empty h e =
        ground (arith, h, e, ok.initialized, ok.some_host, ok.addrs, ok.lens, ok.some_nic)

    start-submit :
        new_handle ≢ invalid_transfer_handle
        → new_context.total_chunks ≢ 0
        → start ≡ submit setup round_robin new_context allocated
    unfolding transfer_async_start
    start-submit h e =
        ground (arith, h, e, ok.initialized, ok.some_host, ok.addrs, ok.lens, ok.some_nic)

    -- What a started transfer leaves: a handle in range that nobody held, its context in the map
    -- and no other context touched, the invariant, and, unless there is nothing to send, the handle
    -- at the end of its worker's queue.
    pub record Started (used : List ℕ) (h : ℕ) (s' : State) : Type 0 where
      pub in_range : (min_handle ≤ h) × (h ≤ max_handle)
      pub fresh : count h used ≡ 0
      pub kept : Inv s' (h ∷ used)
      pub context : find_context s' h ≡ some new_context
      pub others : (k : ℕ) → k ≢ h → find_context s' k ≡ find_context s k
      pub queued :
          (new_context.total_chunks ≡ 0)
          ⊎ (contents (s'.worker_queues worker) ≡ contents (s.worker_queues worker) ++ (h ∷ []))

    handle_of : new_context.handle ≡ new_handle
    unfolding make_context
    handle_of = refl

    -- What `store_context` alone does, whatever the queues become.
    found_after :
        (s' : State)
        → s'.per_numa_transfers ≡ (store_context new_context allocated).per_numa_transfers
        → s'.handle_numa_map ≡ (store_context new_context allocated).handle_numa_map
        → (k : ℕ)
        → find_context s' k ≡ (if k == new_handle then some new_context else find_context s k)
    unfolding find_context
    found_after s' p m k =
        ap₂
          (λ (per_numa : ℕ → ℕ → Option TransferContext) (numa_map : ℕ → Option ℕ).
            elim (numa_map k) as (λ o. Option TransferContext) [
              | none ↦ none
              | some numa_id ↦ per_numa numa_id k
            ])
          p m
        ∙ subst
            (λ (h : ℕ).
              find_context (store_context new_context allocated) k
              ≡ (if k == h then some new_context else find_context s k))
            handle_of (find_context-store new_context allocated k)

    started :
        (used : List ℕ) (s' : State)
        → Inv s used
        → IsFresh used (allocate s.handle_pool)
        → s'.handle_pool ≡ (allocate s.handle_pool).1
        → s'.per_numa_transfers ≡ (store_context new_context allocated).per_numa_transfers
        → s'.handle_numa_map ≡ (store_context new_context allocated).handle_numa_map
        → (new_context.total_chunks ≡ 0)
          ⊎ (contents (s'.worker_queues worker)
              ≡ contents (s.worker_queues worker) ++ (new_handle ∷ []))
        → Started used new_handle s'
    started used s' v fresh pool p m q =
        let f = found_after s' p m in
        record {
          in_range = (fresh.0, fresh.1);
          fresh = fresh.2;
          kept =
              stored-Inv s s' used new_handle new_context v
                (subst (λ (x : HandlePool). Pool.Inv x (new_handle ∷ used)) (sym pool) fresh.3)
                fresh.2 handle_of f;
          context = f new_handle ∙ ground arith;
          others = λ k ne. f k ∙ ground (arith, ne);
          queued = q;
        }

    submit-pushes :
        Ready s
        → new_handle ≢ invalid_transfer_handle
        → let (b, q) = try_push new_handle (s.worker_queues worker) in
          (submit setup round_robin new_context allocated
            ≡ some (
              new_handle,
              record (store_context new_context allocated) {
                worker_queues = put s.worker_queues worker q;
              },
            ))
          × (contents q ≡ contents (s.worker_queues worker) ++ (new_handle ∷ []))
    unfolding submit make_context
    submit-pushes ready real =
        elim (try_push-stores new_handle (s.worker_queues worker) (ground (arith, real))
          (ready.valid worker)).1 [
            | inl (refused, same, full) ↦ absurd (omega (arith, full, ready.room worker))
            | inr (pushed, stored) ↦ (rw (submit, pushed) refl, stored)
          ]

    -- With room in the queues, `transferAsyncStart` of an accepted request returns: either the
    -- transfer is started, or every handle is in use and the answer is the invalid handle with
    -- nothing changed.
    pub transfer_async_start-Started :
        (used : List ℕ)
        → Inv s used
        → Ready s
        → ((h : ℕ) × (s' : State) × (start ≡ some (h, s')) × Started used h s')
          ⊎ ((start ≡ some (invalid_transfer_handle, s)) × AllInUse used)
    unfolding store_context
    transfer_async_start-Started used v ready = elim (allocate-IsFresh s.handle_pool used v.pool) [
      | inr (e, full) ↦ inr (
        start-exhausted (ap (λ (t : ℕ × HandlePool). t.0) e)
            ∙ ap
                (λ (t : ℕ × HandlePool).
                  some (invalid_transfer_handle, record s { handle_pool = t.1 }))
                e,
        full,
      )
      | inl fresh ↦
          let real : new_handle ≢ invalid_transfer_handle = λ e. omega (arith, e, fresh.0) in
          elim (ℕ_discrete new_context.total_chunks 0) [
            | yes nothing ↦ inl (
              new_handle,
              store_context new_context allocated,
              start-empty real nothing,
              started used (store_context new_context allocated) v fresh refl refl refl
                  (inl nothing),
            )
            | no some_chunk ↦
                let (e, stored) = submit-pushes ready real in
                inl (
                  new_handle,
                  _,
                  start-submit real some_chunk ∙ e,
                  started used _ v fresh refl refl refl (inr ground (arith, stored)),
                )
          ]
    ]
