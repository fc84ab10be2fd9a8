-- ===== src/Worker/Loop/Drain.antt =====
-- Taking new handles in: none is lost, and at most five transfers use proxy NICs at a time.
use ucl_mpcomm.Common.{
  leb, ◌==◌, if◌then◌else◌, Bool-cases, Option-cases, length, length-append, add64, ℕ, ◌+◌, ◌≤◌,
  ◌<◌, ◌≡◌, refl, sym, ap, ap₂, ◌∙◌, ◌⊎◌, inl, inr, Bool, true, false, not, ◌&&◌, Option, none,
  some, List, [], ◌∷◌, ◌++◌, arith, dec_lt, ℕ_discrete,
}
use ucl_mpcomm.Worker.{Progress, put_progress}
use ucl_mpcomm.Worker.Cache.{init_context_cache}
use ucl_mpcomm.Worker.Loop.{
  ActiveContext, Loop, LoopSetup, is_active_pxn, holds, count_active, Draining,
  max_active_pxn_contexts, try_activate_handle, activate_each, drain,
}

abbrev pub occurrences : ℕ → List ℕ → ℕ
occurrences h [] = 0
occurrences h (x ∷ xs) = (if x == h then 1 else 0) + occurrences h xs

abbrev pub handles : List ActiveContext → List ℕ
handles [] = []
handles (ac ∷ acs) = ac.handle ∷ handles acs

occurrences-append :
    (h : ℕ) (xs ys : List ℕ) → occurrences h (xs ++ ys) ≡ occurrences h xs + occurrences h ys
occurrences-append h [] ys = omega arith
occurrences-append h (x ∷ xs) ys = omega (arith, occurrences-append h xs ys)

handles-append :
    (xs : List ActiveContext) (ac : ActiveContext)
    → handles (xs ++ (ac ∷ [])) ≡ handles xs ++ (ac.handle ∷ [])
handles-append [] ac = refl
handles-append (x ∷ xs) ac = ap (λ hs. x.handle ∷ hs) (handles-append xs ac)

-- Of a transfer, whether it uses proxy NICs and whether it is finished.
abbrev flags : Option Progress → Option (Bool × Bool)
flags none = none
flags (some ctx) = some (ctx.pxn_enabled, ctx.finished)

abbrev flagged : Option (Bool × Bool) → Bool
flagged none = false
flagged (some f) = f.0 && not f.1

holds-flags : (o : Option Progress) → holds is_active_pxn o ≡ flagged (flags o)
holds-flags none = refl
holds-flags (some ctx) = refl

abbrev SameFlags : (ℕ → Option Progress) → (ℕ → Option Progress) → Type 0
SameFlags before after = (h : ℕ) → flags (after h) ≡ flags (before h)

count_active-flags :
    (before after : ℕ → Option Progress) (acs : List ActiveContext)
    → SameFlags before after
    → count_active is_active_pxn after acs ≡ count_active is_active_pxn before acs
unfolding count_active
count_active-flags before after [] same = refl
count_active-flags before after (ac ∷ acs) same =
    let head : holds is_active_pxn (after ac.handle) ≡ holds is_active_pxn (before ac.handle) =
      holds-flags (after ac.handle)
      ∙ ap flagged (same ac.handle)
      ∙ sym (holds-flags (before ac.handle)) in
    rw (head, count_active-flags before after acs same) refl

count_active-append :
    (test : Progress → Bool) (transfers : ℕ → Option Progress) (acs : List ActiveContext)
    (ac : ActiveContext)
    → count_active test transfers (acs ++ (ac ∷ []))
      ≡ count_active test transfers acs + (if holds test (transfers ac.handle) then 1 else 0)
unfolding count_active
count_active-append test transfers [] ac = omega arith
count_active-append test transfers (a ∷ acs) ac =
    omega (arith, count_active-append test transfers acs ac)

abbrev pub active_pxn : Draining → ℕ
active_pxn d = count_active is_active_pxn d.transfers d.active_contexts

-- One handle that is activated, or gone.
record Step (h : ℕ) (d d' : Draining) : Type 0 where
  same : SameFlags d.transfers d'.transfers
  taken :
      (k : ℕ) (ctx : Progress)
      → d.transfers k ≡ some ctx
      → occurrences k (handles d'.active_contexts)
        ≡ occurrences k (h ∷ []) + occurrences k (handles d.active_contexts)
  grows : d.active_pxn_count ≤ d'.active_pxn_count
  capped :
      d.active_pxn_count ≤ max_active_pxn_contexts → d'.active_pxn_count ≤ max_active_pxn_contexts
  covers :
      active_pxn d ≤ d.active_pxn_count
      → d.active_pxn_count ≤ 5
      → active_pxn d' ≤ d'.active_pxn_count
  exact :
      ((ctx : Progress) → d.transfers h ≡ some ctx → ctx.finished ≡ false)
      → active_pxn d ≡ d.active_pxn_count
      → d.active_pxn_count ≤ 5
      → active_pxn d' ≡ d'.active_pxn_count

gone-Step : (h : ℕ) (d : Draining) → d.transfers h ≡ none → Step h d d
gone-Step h d gone = record {
  same = λ k. refl;
  taken = λ k ctx known. elim (ℕ_discrete h k) [
    | yes e ↦ absurd (ground (arith, sym gone ∙ ap d.transfers e ∙ known))
    | no ne ↦ ground (arith, ne)
  ];
  grows = omega arith;
  capped = λ small. small;
  covers = λ covered small. covered;
  exact = λ unfinished exact small. exact;
}

-- Handles that were tried in turn, of which some are kept.
pub record Tried (hs : List ℕ) (d : Draining) (kept : List ℕ) (d' : Draining) : Type 0 where
  pub same : SameFlags d.transfers d'.transfers
  pub taken :
      (k : ℕ) (ctx : Progress)
      → d.transfers k ≡ some ctx
      → occurrences k (handles d'.active_contexts) + occurrences k kept
        ≡ occurrences k (handles d.active_contexts) + occurrences k hs
  pub grows : d.active_pxn_count ≤ d'.active_pxn_count
  pub capped :
      d.active_pxn_count ≤ max_active_pxn_contexts → d'.active_pxn_count ≤ max_active_pxn_contexts
  pub covers :
      active_pxn d ≤ d.active_pxn_count
      → d.active_pxn_count ≤ max_active_pxn_contexts
      → active_pxn d' ≤ d'.active_pxn_count
  pub exact :
      ((k : ℕ) (ctx : Progress)
        → 0 < occurrences k hs
        → d.transfers k ≡ some ctx
        → ctx.finished ≡ false)
      → active_pxn d ≡ d.active_pxn_count
      → d.active_pxn_count ≤ max_active_pxn_contexts
      → active_pxn d' ≡ d'.active_pxn_count
  pub full : 0 < length kept → max_active_pxn_contexts ≤ d'.active_pxn_count

-- A transfer that is known stays known, and is as finished as it was.
known_after :
    (before after : ℕ → Option Progress) (k : ℕ) (ctx : Progress)
    → SameFlags before after
    → before k ≡ some ctx
    → (ctx' : Progress) × (after k ≡ some ctx') × (ctx'.finished ≡ ctx.finished)
known_after before after k ctx same e = elim (Option-cases (after k)) [
  | inl gone ↦ absurd (ground (arith, sym (ap flags gone) ∙ same k ∙ ap flags e))
  | inr (ctx', e') ↦ (ctx', e', ground (arith, sym (ap flags e') ∙ same k ∙ ap flags e))
]

module _ (setup : LoopSetup) where
  unfoldable pub activated : ℕ → Progress → Draining → Draining
  activated h ctx d = record {
    active_contexts =
        d.active_contexts
        ++ (record {
          handle = h;
          cache = init_context_cache setup.fabric setup.posting.qps_per_connection ctx;
        }
            ∷ []);
    active_pxn_count = if ctx.pxn_enabled then add64 d.active_pxn_count 1 else d.active_pxn_count;
    need_rebuild_nics = true;
    transfers = put_progress d.transfers h (record ctx { submitted = true });
  }

  put-SameFlags :
      (h : ℕ) (ctx : Progress) (transfers : ℕ → Option Progress)
      → transfers h ≡ some ctx
      → SameFlags transfers (put_progress transfers h (record ctx { submitted = true }))
  unfolding put_progress
  put-SameFlags h ctx transfers e k = elim (ℕ_discrete k h) [
    | yes same ↦
        let at : flags (transfers k) ≡ some (ctx.pxn_enabled, ctx.finished) =
          ap (λ j. flags (transfers j)) same ∙ ap flags e in
        ground (arith, same) ∙ sym at
    | no other ↦ ground (arith, other)
  ]

  activated-Step :
      (h : ℕ) (ctx : Progress) (d : Draining)
      → d.transfers h ≡ some ctx
      → ctx.pxn_enabled && leb max_active_pxn_contexts d.active_pxn_count ≡ false
      → Step h d (activated h ctx d)
  unfolding activated
  activated-Step h ctx d e free =
      let d' = activated h ctx d in
      let same = put-SameFlags h ctx d.transfers e in
      let now : active_pxn d' ≡ active_pxn d + (if is_active_pxn ctx then 1 else 0) =
        count_active-append is_active_pxn d'.transfers d.active_contexts _
        ∙ ap₂ ◌+◌ (count_active-flags d.transfers d'.transfers d.active_contexts same) (
            ap (λ b. if b then 1 else 0)
              (holds-flags (d'.transfers h) ∙ ap flagged (same h ∙ ap flags e))) in
      record {
        same = same;
        taken = λ k c known.
            ap (occurrences k) (handles-append d.active_contexts _)
            ∙ occurrences-append k (handles d.active_contexts) (h ∷ [])
            ∙ omega arith;
        grows = ground (arith, free);
        capped = λ small. ground (arith, free, small);
        covers = λ covered small. ground (arith, now, free, covered, small);
        exact = λ unfinished exact small. ground (arith, now, free, exact, small, unfinished ctx e);
      }

  try_activate_handle-cases :
      (h : ℕ) (d : Draining)
      → ((try_activate_handle setup h d ≡ none) × (max_active_pxn_contexts ≤ d.active_pxn_count))
        ⊎ ((d' : Draining) × (try_activate_handle setup h d ≡ some d') × Step h d d')
  unfolding try_activate_handle activated
  try_activate_handle-cases h d = elim (Option-cases (d.transfers h)) [
    | inl gone ↦ inr (d, rw (gone, try_activate_handle) refl, gone-Step h d gone)
    | inr (ctx, e) ↦
        elim (Bool-cases (ctx.pxn_enabled && leb max_active_pxn_contexts d.active_pxn_count)) [
          | inl deferred ↦
              inl (rw (e, deferred, try_activate_handle) refl, ground (arith, deferred))
          | inr free ↦ inr (
            activated h ctx d,
            rw (e, free, try_activate_handle) refl,
            activated-Step h ctx d e free,
          )
        ]
  ]

  pub activate_each-Tried :
      (hs : List ℕ) (d : Draining) → let r = activate_each setup hs d in Tried hs d r.0 r.1
  unfolding activate_each
  activate_each-Tried [] d = record {
    same = λ k. refl;
    taken = λ k ctx known. refl;
    grows = omega arith;
    capped = λ small. small;
    covers = λ covered small. covered;
    exact = λ unfinished exact small. exact;
    full = λ p. absurd (omega (arith, p));
  }
  activate_each-Tried (h ∷ hs) d = elim (try_activate_handle-cases h d) [
    | inl (e, at_cap) ↦
        let r = activate_each-Tried hs d in
        rw (e, activate_each)
          record {
            same = r.same;
            taken = λ k ctx known. omega (arith, r.taken k ctx known);
            grows = r.grows;
            capped = r.capped;
            covers = r.covers;
            exact = λ unfinished exact small.
                r.exact (λ k ctx p known. unfinished k ctx (omega (arith, p)) known) exact small;
            full = λ p. omega (arith, at_cap, r.grows);
          }
    | inr (d', e, s) ↦
        let r = activate_each-Tried hs d' in
        rw (e, activate_each)
          record {
            same = λ k. r.same k ∙ s.same k;
            taken = λ k ctx known.
                let (ctx', known', f) = known_after d.transfers d'.transfers k ctx s.same known in
                omega (arith, r.taken k ctx' known', s.taken k ctx known);
            grows = omega (arith, r.grows, s.grows);
            capped = λ small. r.capped (s.capped small);
            covers = λ covered small. r.covers (s.covers covered small) (s.capped small);
            exact = λ unfinished exact small.
                r.exact
                  (λ k ctx p known.
                    let (ctx', known', f) =
                      known_after d'.transfers d.transfers k ctx (λ j. sym (s.same j)) known in
                    sym f ∙ unfinished k ctx' (omega (arith, p)) known')
                  (s.exact (λ ctx known. unfinished h ctx (ground arith) known) exact small)
                  (s.capped small);
            full = r.full;
          }
  ]

-- What phase 1 makes of the handles that wait.
pub record Drained (popped : List ℕ) (s s' : Loop) : Type 0 where
  pub none_lost :
      (k : ℕ) (ctx : Progress)
      → s.worker.transfers k ≡ some ctx
      → occurrences k (handles s'.active_contexts) + occurrences k s'.pending_pxn_handles
        ≡ occurrences k (handles s.active_contexts)
          + occurrences k s.pending_pxn_handles
          + occurrences k popped
  pub within_cap :
      count_active is_active_pxn s'.worker.transfers s'.active_contexts ≤ max_active_pxn_contexts
  pub deferred_at_cap :
      0 < length s'.pending_pxn_handles
      → count_active is_active_pxn s'.worker.transfers s'.active_contexts ≡ max_active_pxn_contexts

-- If at most five unfinished transfers with proxy NICs are active, and none of the transfers that
-- wait is finished, then after phase 1 each waiting or new handle of a known transfer is active or
-- waits, as often as before; still at most five are active; and a handle waits only if five are.
pub drain-Drained :
    (setup : LoopSetup) (popped : List ℕ) (s : Loop)
    → count_active is_active_pxn s.worker.transfers s.active_contexts ≤ max_active_pxn_contexts
    → ((k : ℕ) (ctx : Progress)
        → 0 < occurrences k s.pending_pxn_handles + occurrences k popped
        → s.worker.transfers k ≡ some ctx
        → ctx.finished ≡ false)
    → Drained popped s (drain setup popped s)
unfolding drain
drain-Drained setup popped s small unfinished =
    let d : Draining = record {
      active_contexts = s.active_contexts;
      active_pxn_count = count_active is_active_pxn s.worker.transfers s.active_contexts;
      need_rebuild_nics = false;
      transfers = s.worker.transfers;
    } in
    let kept = activate_each setup s.pending_pxn_handles d in
    let a = activate_each-Tried setup s.pending_pxn_handles d in
    let b = activate_each-Tried setup popped kept.1 in
    let rest = activate_each setup popped kept.1 in
    record {
      none_lost = λ k ctx known.
          let (ctx', known', f) = known_after d.transfers kept.1.transfers k ctx a.same known in
          omega
            (arith, occurrences-append k kept.0 rest.0, a.taken k ctx known, b.taken k ctx' known');
      within_cap = omega (
        arith,
        b.covers (a.covers (omega arith) small) (a.capped small),
        b.capped (a.capped small),
      );
      deferred_at_cap = λ waits.
          let exact_a =
            a.exact (λ k ctx p known. unfinished k ctx (omega (arith, p)) known) refl small in
          let exact_b =
            b.exact
              (λ k ctx p known.
                let (ctx', known', f) =
                  known_after kept.1.transfers d.transfers k ctx (λ j. sym (a.same j)) known in
                sym f ∙ unfinished k ctx' (omega (arith, p)) known')
              exact_a (a.capped small) in
          let upper = b.capped (a.capped small) in
          elim (dec_lt 0 (length kept.0)) [
            | yes p ↦ omega (arith, exact_b, upper, a.full p, b.grows)
            | no np ↦ omega (
              arith,
              exact_b,
              upper,
              b.full (omega (arith, np, waits, length-append kept.0 rest.0)),
            )
          ];
    }
