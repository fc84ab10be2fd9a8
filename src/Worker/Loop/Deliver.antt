-- ===== src/Worker/Loop/Deliver.antt =====
-- From the completions of a round to the end of a transfer.
use ucl_mpcomm.Common.{
  leb, le→leb, Option-cases, length, length-append, ℤ, word, ℕ, ◌+◌, ◌≤◌, ◌<◌, ◌≡◌, refl, ap, subst,
  ◌∙◌, ◌≢◌, inl, inr, true, false, Option, none, some, List, [], ◌∷◌, ◌++◌, arith,
}
use ucl_mpcomm.Errors.{success, err_transfer}
use ucl_mpcomm.Worker.{
  Progress, WorkCompletion, WorkerSetup, WorkerState, complete_all, poll_all_nics_for_worker,
}
use ucl_mpcomm.Worker.Routing.{successes, failures, Advanced, Advanced-trans, complete_all-Advanced}
use ucl_mpcomm.Worker.Loop.{Loop, has, finish}
use ucl_mpcomm.Worker.Loop.Drain.{handles, occurrences}
use ucl_mpcomm.Worker.Loop.Evolve.{Follows, poll_all-Evolves}
use ucl_mpcomm.Worker.Loop.Finish.{finish-Settled}

-- A transfer is over, with this code, and the worker has let it go.
pub record Over (code : ℤ) (h : ℕ) (s : Loop) : Type 0 where
  pub ctx : Progress
  pub known : s.worker.transfers h ≡ some ctx
  pub finished : ctx.finished ≡ true
  pub error_code : ctx.error_code ≡ code
  pub inactive : occurrences h (handles s.active_contexts) ≡ 0

abbrev pub or_none : Option (List WorkCompletion) → List WorkCompletion
or_none none = []
or_none (some wcs) = wcs

-- Each NIC answers the poll.
abbrev pub AllAnswer : (ℕ → Option (List WorkCompletion)) → List ℕ → Type 0
AllAnswer poll [] = Unit
AllAnswer poll (nic ∷ nics) = (poll nic ≢ none) × AllAnswer poll nics

-- All that the NICs report.
abbrev pub reported : (ℕ → Option (List WorkCompletion)) → List ℕ → List WorkCompletion
reported poll [] = []
reported poll (nic ∷ nics) = or_none (poll nic) ++ reported poll nics

successes-append :
    (h : ℕ) (xs ys : List WorkCompletion) → successes h (xs ++ ys) ≡ successes h xs + successes h ys
successes-append h [] ys = omega arith
successes-append h (x ∷ xs) ys = omega (arith, successes-append h xs ys)

failures-append :
    (h : ℕ) (xs ys : List WorkCompletion) → failures h (xs ++ ys) ≡ failures h xs + failures h ys
failures-append h [] ys = omega arith
failures-append h (x ∷ xs) ys = omega (arith, failures-append h xs ys)

-- How many completions of a transfer succeed cannot exceed how many there are.
successes-le : (h : ℕ) (wcs : List WorkCompletion) → successes h wcs ≤ length wcs
successes-le h [] = omega arith
successes-le h (wc ∷ wcs) = ground (arith, successes-le h wcs)

module _ (setup : WorkerSetup) (strict : setup.tolerate ≡ false)
    (poll : ℕ → Option (List WorkCompletion)) (h : ℕ) where
  poll_all-Advanced :
      (nics : List ℕ) (w : WorkerState) (ctx : Progress)
      → w.transfers h ≡ some ctx
      → AllAnswer poll nics
      → ctx.total_completed + length (reported poll nics) < word
      → let r = poll_all_nics_for_worker setup poll nics w in
        (r.0 ≡ success)
        × (ctx' : Progress) × (r.1.transfers h ≡ some ctx')
        × Advanced (successes h (reported poll nics)) (failures h (reported poll nics)) ctx ctx'
  unfolding poll_all_nics_for_worker
  poll_all-Advanced [] w ctx known answers small = (
    refl,
    ctx,
    known,
    record {
      counted = omega arith;
      failed = λ p. absurd (omega arith);
      intact = λ z. (refl, refl);
    },
  )
  poll_all-Advanced (nic ∷ nics) w ctx known (answer, answers) small =
      elim (Option-cases (poll nic)) [
        | inl e ↦ absurd (answer e)
        | inr (wcs, e) ↦
            let here : or_none (poll nic) ≡ wcs = ap or_none e in
            let all : length (reported poll (nic ∷ nics))
                ≡ length wcs + length (reported poll nics) =
              length-append (or_none (poll nic)) (reported poll nics)
              ∙ ap (λ l. length l + length (reported poll nics)) here in
            let (c, e1, a) =
              complete_all-Advanced setup strict nic h wcs w ctx known
                (omega (arith, small, all)) in
            let (ok, c', e2, b) =
              poll_all-Advanced nics (complete_all setup nic wcs w) c e1 answers
                (omega (arith, small, all, a.counted, successes-le h wcs)) in
            let both =
              Advanced-trans (successes h wcs) (failures h wcs) (successes h (reported poll nics))
                (failures h (reported poll nics)) ctx c c' a b in
            rw (e, poll_all_nics_for_worker)
              (
                ok,
                c',
                e2,
                record {
                  counted =
                      omega (arith, both.counted, successes-append h wcs (reported poll nics));
                  failed = λ p.
                      both.failed (omega (arith, p, failures-append h wcs (reported poll nics)));
                  intact = λ z.
                      both.intact (omega (arith, z, failures-append h wcs (reported poll nics)));
                },
              )
      ]

  module _ (s : Loop) (ctx : Progress) (known : s.worker.transfers h ≡ some ctx)
      (active : has h (handles s.active_contexts) ≡ true) (unfinished : ctx.finished ≡ false)
      (answers : AllAnswer poll s.poll_nic_indices)
      (small : ctx.total_completed + length (reported poll s.poll_nic_indices) < word) where
    total_after :
        (ctx' : Progress)
        → (poll_all_nics_for_worker setup poll s.poll_nic_indices s.worker).1.transfers h
          ≡ some ctx'
        → ctx'.total_chunks ≡ ctx.total_chunks
    total_after ctx' e =
        let f : Follows (some ctx) (some ctx') =
          subst (λ o. Follows o (some ctx')) known
            (subst (λ o. Follows (s.worker.transfers h) o) e
              (poll_all-Evolves setup poll s.poll_nic_indices s.worker h)) in
        f.total

    -- Without fault tolerance, in a round in which every polled NIC answers: when the successful
    -- completions of an active, unfinished transfer on all NICs together make up for all its chunks
    -- that were missing, and none of its completions failed, then the polling succeeds, and after
    -- phase 4 the transfer is finished with success, and the worker has let it go.
    pub settle-success :
        failures h (reported poll s.poll_nic_indices) ≡ 0
        → ctx.total_chunks ≤ ctx.total_completed + successes h (reported poll s.poll_nic_indices)
        → let r = poll_all_nics_for_worker setup poll s.poll_nic_indices s.worker in
          (r.0 ≡ success) × Over success h (finish (record s { worker = r.1 }))
    settle-success none_failed enough =
        let (ok, ctx', e, a) =
          poll_all-Advanced s.poll_nic_indices s.worker ctx known answers small in
        let (code, flag) = a.intact none_failed in
        let w = (poll_all_nics_for_worker setup poll s.poll_nic_indices s.worker).1 in
        let end = finish-Settled (record s { worker = w }) h ctx' e in
        let full : leb ctx'.total_chunks ctx'.total_completed ≡ true =
          le→leb _ _ (omega (arith, total_after ctx' e, a.counted, enough)) in
        (
          ok,
          record {
            ctx = record ctx' { error_code = success; finished = true };
            known = ground (arith, end.outcome, active, flag, unfinished, full);
            finished = refl;
            error_code = refl;
            inactive = ground (arith, end.stays, full);
          },
        )

    -- When one of them failed, it is finished with a transfer error instead, however many succeeded.
    pub settle-failure :
        0 < failures h (reported poll s.poll_nic_indices)
        → let r = poll_all_nics_for_worker setup poll s.poll_nic_indices s.worker in
          Over err_transfer h (finish (record s { worker = r.1 }))
    settle-failure some_failed =
        let (ok, ctx', e, a) =
          poll_all-Advanced s.poll_nic_indices s.worker ctx known answers small in
        let (code, flag) = a.failed some_failed in
        let w = (poll_all_nics_for_worker setup poll s.poll_nic_indices s.worker).1 in
        let end = finish-Settled (record s { worker = w }) h ctx' e in
        record {
          ctx = ctx';
          known = ground (arith, end.outcome, flag);
          finished = flag;
          error_code = code;
          inactive = ground (arith, end.stays, flag);
        }
