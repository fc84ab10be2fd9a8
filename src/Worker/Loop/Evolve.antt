-- ===== src/Worker/Loop/Evolve.antt =====
-- What a round of the loop never changes of a transfer, and what follows for the state: the NICs of
-- every active transfer are polled, and at most five active transfers use proxy NICs.
use ucl_mpcomm.Common.{
  ltb, leb, Bool-cases, Option-cases, ℤ, ℕ, zero, suc, ◌≡◌, refl, sym, ap, subst, ◌∙◌, inl, inr,
  true, ◌||◌, Option, none, some, List, [], ◌∷◌, arith, ℕ_discrete,
}
use ucl_mpcomm.Errors.{success}
use ucl_mpcomm.Worker.{
  Progress, WorkCompletion, WorkerState, WorkerSetup, put_progress, advance, route, complete,
  complete_all, poll_all_nics_for_worker,
}
use ucl_mpcomm.WrId.{decode_handle}
use ucl_mpcomm.Worker.Routing.{complete-hit, complete-miss}
use ucl_mpcomm.Worker.Cache.{Fabric, NicConnCache}
use ucl_mpcomm.Worker.Posting.{
  PostSetup, Round, nic_full, qp_full, assigned, failed, posted, stop, count_chunk, assign_chunk,
  post_chunk, Posted, after_round, post_loop, post_all,
}
use ucl_mpcomm.Worker.Posting.Rounds.{View, Refused-stop, post_chunk-View}
use ucl_mpcomm.Worker.Loop.{ActiveContext, post_contexts, fail_active, remove_completed}

-- A transfer keeps its candidate NICs and its number of chunks, uses proxy NICs or not, and stays finished.
pub record Later (before after : Progress) : Type 0 where
  pub candidates : after.candidate_nic_indices ≡ before.candidate_nic_indices
  pub total : after.total_chunks ≡ before.total_chunks
  pub pxn : after.pxn_enabled ≡ before.pxn_enabled
  pub finished : before.finished ≡ true → after.finished ≡ true

Later-refl : (ctx : Progress) → Later ctx ctx
Later-refl ctx = record { candidates = refl; total = refl; pxn = refl; finished = λ e. e }

Later-trans : (a b c : Progress) → Later a b → Later b c → Later a c
Later-trans a b c p q = record {
  candidates = q.candidates ∙ p.candidates;
  total = q.total ∙ p.total;
  pxn = q.pxn ∙ p.pxn;
  finished = λ e. q.finished (p.finished e);
}

-- No transfer appears or goes.
abbrev pub Follows : Option Progress → Option Progress → Type 0
Follows none none = Unit
Follows none (some c) = ⊥
Follows (some c) none = ⊥
Follows (some c) (some c') = Later c c'

abbrev pub Evolves : (ℕ → Option Progress) → (ℕ → Option Progress) → Type 0
Evolves before after = (h : ℕ) → Follows (before h) (after h)

pub Follows-refl : (o : Option Progress) → Follows o o
Follows-refl none = tt
Follows-refl (some c) = Later-refl c

pub Follows-trans : (a b c : Option Progress) → Follows a b → Follows b c → Follows a c
Follows-trans none none none p q = tt
Follows-trans none none (some z) p q = q
Follows-trans none (some y) c p q = absurd p
Follows-trans (some x) none c p q = absurd p
Follows-trans (some x) (some y) none p q = q
Follows-trans (some x) (some y) (some z) p q = Later-trans x y z p q

pub put-Evolves :
    (transfers : ℕ → Option Progress) (h : ℕ) (ctx ctx' : Progress)
    → transfers h ≡ some ctx
    → Later ctx ctx'
    → Evolves transfers (put_progress transfers h ctx')
unfolding put_progress
put-Evolves transfers h ctx ctx' e l k = elim (ℕ_discrete k h) [
  | yes same ↦
      subst (λ o. Follows o (put_progress transfers h ctx' k)) (sym (ap transfers same ∙ e))
        (let here : some ctx' ≡ put_progress transfers h ctx' k = ground (arith, same) in
          subst (λ o. Follows (some ctx) o) here l)
  | no other ↦
      let here : transfers k ≡ put_progress transfers h ctx' k = ground (arith, other) in
      subst (λ o. Follows (transfers k) o) here (Follows-refl (transfers k))
]

stop-Later : (code : ℤ) (ctx : Progress) → Later ctx (stop code ctx)
stop-Later code ctx = record { candidates = refl; total = refl; pxn = refl; finished = λ e. refl }

advance-Later :
    (setup : WorkerSetup) (wc : WorkCompletion) (ctx : Progress) → Later ctx (advance setup wc ctx)
unfolding advance route
advance-Later setup wc ctx = elim (Bool-cases (wc.ok || setup.tolerate)) [
  | inl e ↦
      rw (e, advance) record { candidates = refl; total = refl; pxn = refl; finished = λ f. f }
  | inr e ↦
      rw (e, advance) record { candidates = refl; total = refl; pxn = refl; finished = λ f. refl }
]

ctx_of : Progress → Round → Progress
ctx_of ctx (assigned g' ctx') = ctx'
ctx_of ctx _ = ctx

-- The posting loop, round by round.
module _ (setup : PostSetup) (fabric : Fabric) (cache : NicConnCache) where
  after_round-Later :
      (r : Round) (g : List ℕ) (w : WorkerState) (ctx : Progress)
      (rest : List ℕ → WorkerState → Progress → Posted)
      → View setup fabric cache g w ctx r
      → ((g' : List ℕ) (w' : WorkerState) (ctx' : Progress) → Later ctx' (rest g' w' ctx').ctx)
      → Later ctx (after_round r g w ctx rest).ctx
  unfolding after_round View ctx_of assign_chunk count_chunk
  after_round-Later nic_full g w ctx rest v next = Later-refl ctx
  after_round-Later qp_full g w ctx rest v next = Later-refl ctx
  after_round-Later (assigned g' ctx') g w ctx rest (nic, proxy, best, e) next =
      let step : Later ctx ctx' =
        subst (Later ctx) (sym (ap (ctx_of ctx) e))
          record { candidates = refl; total = refl; pxn = refl; finished = λ f. f } in
      Later-trans ctx ctx' _ step (next g' w ctx')
  after_round-Later (failed ctx') g w ctx rest v next =
      let (code, e) = Refused-stop setup fabric cache g w ctx ctx' v in
      subst (Later ctx) (sym e) (stop-Later code ctx)
  after_round-Later (posted qp wr w' ctx') g w ctx rest v next =
      let step : Later ctx ctx' =
        subst (Later ctx) (sym v.context)
          record { candidates = refl; total = refl; pxn = refl; finished = λ f. f } in
      Later-trans ctx ctx' _ step (next g w' ctx')

  post_loop-Later :
      (fuel : ℕ) (g : List ℕ) (w : WorkerState) (ctx : Progress)
      → Later ctx (post_loop fuel setup fabric cache g w ctx).ctx
  unfolding post_loop
  post_loop-Later zero g w ctx = Later-refl ctx
  post_loop-Later (suc fuel) g w ctx = elim (Bool-cases (ltb ctx.next_chunk_idx ctx.total_chunks)) [
    | inr e ↦ rw (e, post_loop) (Later-refl ctx)
    | inl more ↦
        rw (more, post_loop)
          (after_round-Later (post_chunk setup fabric cache g w ctx) g w ctx _
            (post_chunk-View setup fabric cache g w ctx)
            (λ g' w' ctx'. post_loop-Later fuel g' w' ctx'))
  ]

  post_all-Later :
      (g : List ℕ) (w : WorkerState) (ctx : Progress)
      → Later ctx (post_all setup fabric cache g w ctx).ctx
  unfolding post_all
  post_all-Later g w ctx = post_loop-Later _ g w ctx

pub post_contexts-Evolves :
    (setup : PostSetup) (fabric : Fabric) (acs : List ActiveContext) (g : List ℕ) (w : WorkerState)
    → Evolves w.transfers (post_contexts setup fabric acs g w).transfers
unfolding post_contexts
post_contexts-Evolves setup fabric [] g w = λ h. Follows-refl (w.transfers h)
post_contexts-Evolves setup fabric (ac ∷ acs) g w = elim (Option-cases (w.transfers ac.handle)) [
  | inl e ↦ rw (e, post_contexts) (post_contexts-Evolves setup fabric acs g w)
  | inr (ctx, e) ↦
      let p = post_all setup fabric ac.cache g w ctx in
      rw (e, post_contexts)
        (λ h.
          Follows-trans (w.transfers h) (put_progress w.transfers ac.handle p.ctx h) _
            (put-Evolves w.transfers ac.handle ctx p.ctx e
              (post_all-Later setup fabric ac.cache g w ctx) h)
            (post_contexts-Evolves setup fabric acs p.assigned_now
              (record p.worker { transfers = put_progress w.transfers ac.handle p.ctx }) h))
]

complete-Evolves :
    (setup : WorkerSetup) (nic : ℕ) (wc : WorkCompletion) (w : WorkerState)
    → Evolves w.transfers (complete setup nic wc w).transfers
complete-Evolves setup nic wc w h = elim (Option-cases (w.transfers (decode_handle wc.wr_id))) [
  | inl e ↦
      subst (λ f. Follows (w.transfers h) (f h)) (sym (complete-miss setup nic wc w e))
        (Follows-refl (w.transfers h))
  | inr (ctx, e) ↦
      subst (λ f. Follows (w.transfers h) (f h)) (sym (complete-hit setup nic wc w ctx e))
        (put-Evolves w.transfers _ ctx (advance setup wc ctx) e (advance-Later setup wc ctx) h)
]

pub complete_all-Evolves :
    (setup : WorkerSetup) (nic : ℕ) (wcs : List WorkCompletion) (w : WorkerState)
    → Evolves w.transfers (complete_all setup nic wcs w).transfers
unfolding complete_all
complete_all-Evolves setup nic [] w h = Follows-refl (w.transfers h)
complete_all-Evolves setup nic (wc ∷ wcs) w h =
    Follows-trans (w.transfers h) ((complete setup nic wc w).transfers h) _
      (complete-Evolves setup nic wc w h)
      (complete_all-Evolves setup nic wcs (complete setup nic wc w) h)

pub poll_all-Evolves :
    (setup : WorkerSetup) (poll : ℕ → Option (List WorkCompletion)) (nics : List ℕ)
    (w : WorkerState)
    → Evolves w.transfers (poll_all_nics_for_worker setup poll nics w).1.transfers
unfolding poll_all_nics_for_worker
poll_all-Evolves setup poll [] w h = Follows-refl (w.transfers h)
poll_all-Evolves setup poll (nic ∷ nics) w h = elim (Option-cases (poll nic)) [
  | inl e ↦ rw (e, poll_all_nics_for_worker) (Follows-refl (w.transfers h))
  | inr (wcs, e) ↦
      rw (e, poll_all_nics_for_worker)
        (Follows-trans (w.transfers h) ((complete_all setup nic wcs w).transfers h) _
          (complete_all-Evolves setup nic wcs w h)
          (poll_all-Evolves setup poll nics (complete_all setup nic wcs w) h))
]

pub fail_active-Evolves :
    (code : ℤ) (acs : List ActiveContext) (transfers : ℕ → Option Progress)
    → Evolves transfers (fail_active code acs transfers)
unfolding fail_active
fail_active-Evolves code [] transfers h = Follows-refl (transfers h)
fail_active-Evolves code (ac ∷ acs) transfers h = elim (Option-cases (transfers ac.handle)) [
  | inl e ↦ rw (e, fail_active) (fail_active-Evolves code acs transfers h)
  | inr (ctx, e) ↦ elim (Bool-cases ctx.finished) [
    | inl f ↦ rw (e, f, fail_active) (fail_active-Evolves code acs transfers h)
    | inr f ↦
        rw (e, f, fail_active)
          (Follows-trans (transfers h) (put_progress transfers ac.handle (stop code ctx) h) _
            (put-Evolves transfers ac.handle ctx (stop code ctx) e (stop-Later code ctx) h)
            (fail_active-Evolves code acs (put_progress transfers ac.handle (stop code ctx)) h))
  ]
]

pub remove_completed-Evolves :
    (acs : List ActiveContext) (transfers : ℕ → Option Progress)
    → Evolves transfers (remove_completed acs transfers).1
unfolding remove_completed
remove_completed-Evolves [] transfers h = Follows-refl (transfers h)
remove_completed-Evolves (ac ∷ acs) transfers h = elim (Option-cases (transfers ac.handle)) [
  | inl e ↦ rw (e, remove_completed) (remove_completed-Evolves acs transfers h)
  | inr (ctx, e) ↦ elim (Bool-cases ctx.finished) [
    | inl f ↦ rw (e, f, remove_completed) (remove_completed-Evolves acs transfers h)
    | inr f ↦ elim (Bool-cases (leb ctx.total_chunks ctx.total_completed)) [
      | inl done ↦
          rw (e, f, done, remove_completed)
            (Follows-trans (transfers h) (put_progress transfers ac.handle (stop success ctx) h) _
              (put-Evolves transfers ac.handle ctx (stop success ctx) e (stop-Later success ctx) h)
              (remove_completed-Evolves acs (put_progress transfers ac.handle (stop success ctx))
                h))
      | inr more ↦ rw (e, f, more, remove_completed) (remove_completed-Evolves acs transfers h)
    ]
  ]
]
