-- ===== src/Worker/Loop/Finish.antt =====
-- Taking out the transfers that are done.
use ucl_mpcomm.Common.{
  leb, if◌then◌else◌, Bool-cases, Option-cases, ℕ, ◌≡◌, sym, ap, ◌∙◌, ◌≢◌, inl, inr, Bool, true,
  false, not, ◌&&◌, ◌||◌, Option, none, some, List, [], ◌∷◌, arith, ℕ_discrete,
}
use ucl_mpcomm.Errors.{success}
use ucl_mpcomm.Worker.{Progress, put_progress}
use ucl_mpcomm.Worker.Posting.{stop}
use ucl_mpcomm.Worker.Loop.{ActiveContext, Loop, has, remove_completed, finish}
use ucl_mpcomm.Worker.Loop.Drain.{handles, occurrences}

-- All chunks of the transfer are completed.
abbrev pub all_done : Progress → Bool
all_done ctx = leb ctx.total_chunks ctx.total_completed

abbrev pub settled : Bool → Progress → Progress
settled active ctx = if active && (not ctx.finished && all_done ctx) then stop success ctx else ctx

-- What becomes of a transfer `ctx` with handle `k`.
pub record Settled (k : ℕ) (ctx : Progress) (acs acs' : List ActiveContext)
    (after : ℕ → Option Progress) : Type 0 where
  pub outcome : after k ≡ some (settled (has k (handles acs)) ctx)
  pub stays :
      occurrences k (handles acs')
      ≡ (if ctx.finished || all_done ctx then 0 else occurrences k (handles acs))

some_injective : (a b : Progress) → some a ≡ some b → a ≡ b
some_injective a b e = ap (λ (o : Option Progress). elim o [ none ↦ a | some x ↦ x ]) e

remove_completed-Settled :
    (acs : List ActiveContext) (transfers : ℕ → Option Progress) (k : ℕ) (ctx : Progress)
    → transfers k ≡ some ctx
    → let r = remove_completed acs transfers in Settled k ctx acs r.0 r.1
unfolding remove_completed put_progress
remove_completed-Settled [] transfers k ctx e = record { outcome = e; stays = ground arith }
remove_completed-Settled (ac ∷ acs) transfers k ctx e =
    let r = remove_completed-Settled acs transfers k ctx e in
    elim (Option-cases (transfers ac.handle)) [
      | inl gone ↦
          let other : k ≢ ac.handle =
            λ same. absurd (ground (arith, sym gone ∙ sym (ap transfers same) ∙ e)) in
          rw (gone, remove_completed)
            record {
              outcome = ground (arith, r.outcome, other);
              stays = ground (arith, r.stays, other);
            }
      | inr (c, known) ↦
          let at : k ≡ ac.handle → ctx ≡ c =
            λ same. some_injective ctx c (sym e ∙ ap transfers same ∙ known) in
          elim (Bool-cases c.finished) [
            | inl fin ↦
                rw (known, fin, remove_completed)
                  elim (ℕ_discrete k ac.handle) [
                    | yes same ↦
                        let fin' : ctx.finished ≡ true =
                          ap (λ (x : Progress). x.finished) (at same) ∙ fin in
                        record {
                          outcome = ground (arith, r.outcome, fin');
                          stays = ground (arith, r.stays, fin');
                        }
                    | no other ↦ record {
                      outcome = ground (arith, r.outcome, other);
                      stays = ground (arith, r.stays, other);
                    }
                  ]
            | inr unfin ↦ elim (Bool-cases (all_done c)) [
              | inl done ↦
                  rw (known, unfin, done, remove_completed)
                    elim (ℕ_discrete k ac.handle) [
                      | yes same ↦
                          let unfin' : ctx.finished ≡ false =
                            ap (λ (x : Progress). x.finished) (at same) ∙ unfin in
                          let done' : all_done ctx ≡ true = ap all_done (at same) ∙ done in
                          let stopped : stop success c ≡ stop success ctx =
                            ap (stop success) (sym (at same)) in
                          let r' =
                            remove_completed-Settled acs
                              (put_progress transfers ac.handle (stop success c)) k
                              (stop success ctx) (ground (arith, same) ∙ ap some stopped) in
                          record {
                            outcome = ground (arith, r'.outcome, unfin', done', same);
                            stays = ground (arith, r'.stays, done');
                          }
                      | no other ↦
                          let r' =
                            remove_completed-Settled acs
                              (put_progress transfers ac.handle (stop success c)) k ctx
                              (ground (arith, other) ∙ e) in
                          record {
                            outcome = ground (arith, r'.outcome, other);
                            stays = ground (arith, r'.stays, other);
                          }
                    ]
              | inr more ↦
                  rw (known, unfin, more, remove_completed)
                    elim (ℕ_discrete k ac.handle) [
                      | yes same ↦
                          let unfin' : ctx.finished ≡ false =
                            ap (λ (x : Progress). x.finished) (at same) ∙ unfin in
                          let more' : all_done ctx ≡ false = ap all_done (at same) ∙ more in
                          record {
                            outcome = ground (arith, r.outcome, unfin', more');
                            stays = ground (arith, r.stays, unfin', more', same);
                          }
                      | no other ↦ record {
                        outcome = ground (arith, r.outcome, other);
                        stays = ground (arith, r.stays, other);
                      }
                    ]
            ]
          ]
    ]

-- At the end of a round an active transfer that is not finished and has all its chunks completed is
-- finished with success; every other known transfer is as it was; and a transfer that is finished,
-- or was finished before, is active no more, while the others stay active.
pub finish-Settled :
    (s : Loop) (k : ℕ) (ctx : Progress)
    → s.worker.transfers k ≡ some ctx
    → let s' = finish s in Settled k ctx s.active_contexts s'.active_contexts s'.worker.transfers
unfolding finish
finish-Settled s k ctx e = remove_completed-Settled s.active_contexts s.worker.transfers k ctx e
