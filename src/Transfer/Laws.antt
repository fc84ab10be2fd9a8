-- ===== src/Transfer/Laws.antt =====
-- Seen from outside, the two maps are one map from handles to contexts, whose keys are exactly the
-- handles in use.
use ucl_mpcomm.Common.{
  ◌==◌, if◌then◌else◌, Option-cases, All, ℤ, pos, negsuc, ℕ, ◌+◌, ◌≤◌, ◌<◌, ◌≡◌, refl, sym, subst,
  ◌∙◌, ◌≢◌, inl, inr, true, false, none, some, List, [], ◌∷◌, ◌++◌, arith, ℕ_discrete,
}
use mathlib.Core.List.{append-nil}
use ucl_mpcomm.Errors.{err_invalid_handle, err_timeout}
use ucl_mpcomm.HandlePool.{HandlePool, release}
use ucl_mpcomm.HandlePool.Invariant as Pool
use ucl_mpcomm.HandlePool.Invariant.{count, erase, count-erase, release-Inv}
use ucl_mpcomm.Transfer.{
  TransferContext, State, store_context, find_context, is_transfer_complete, get_transfer_result,
  release_transfer, Look, wait_loop, wait_transfer,
}

pub find_context-store :
    (ctx : TransferContext) (s : State) (h : ℕ)
    → find_context (store_context ctx s) h
      ≡ (if h == ctx.handle then some ctx else find_context s h)
unfolding find_context store_context
find_context-store ctx s h = elim (ℕ_discrete h ctx.handle) [
  | yes same ↦ ground (arith, same)
  | no other ↦ ground (arith, other)
]

pub find_context-release :
    (h : ℕ) (s : State) (k : ℕ)
    → find_context (release_transfer h s) k ≡ (if k == h then none else find_context s k)
unfolding find_context release_transfer
find_context-release h s k = elim (Option-cases (s.handle_numa_map h)) [
  | inl e ↦ rw (e, find_context) (ground (arith, e))
  | inr (numa_id, e) ↦ elim (ℕ_discrete k h) [
    | yes same ↦ ground (arith, same, e)
    | no other ↦ ground (arith, other, e)
  ]
]

-- `used` lists the handles that callers hold.
pub record Inv (s : State) (used : List ℕ) : Type 0 where
  pub pool : Pool.Inv s.handle_pool used
  pub absent : (h : ℕ) → count h used ≡ 0 → find_context s h ≡ none
  pub present :
      (h : ℕ)
      → count h used ≡ 1
      → (ctx : TransferContext) × (find_context s h ≡ some ctx) × (ctx.handle ≡ h)

handle_pool-release :
    (h : ℕ) (s : State) → (release_transfer h s).handle_pool ≡ release h s.handle_pool
unfolding release_transfer
handle_pool-release h s = elim (Option-cases (s.handle_numa_map h)) [
  | inl e ↦ rw (e, release_transfer) refl
  | inr (numa_id, e) ↦ rw (e, release_transfer) refl
]

release_transfer-keeps :
    (s : State) (used : List ℕ) (h : ℕ)
    → Inv s used
    → count h used ≡ 1
    → Inv (release_transfer h s) (erase h used)
release_transfer-keeps s used h v held = record {
  pool =
      subst (λ (p : HandlePool). Pool.Inv p (erase h used)) (sym (handle_pool-release h s))
        (release-Inv s.handle_pool used h v.pool (omega arith));
  absent = λ k none_held. elim (ℕ_discrete k h) [
    | yes same ↦ ground (arith, same, find_context-release h s k)
    | no other ↦
        find_context-release h s k
        ∙ ground (arith, other, v.absent k (ground (arith, other, left k)))
  ];
  present = λ k one_held. elim (ℕ_discrete k h) [
    | yes same ↦ absurd (ground (arith, same, one_held, left k))
    | no other ↦
        let (ctx, found, named) = v.present k (ground (arith, other, one_held, left k)) in
        (ctx, find_context-release h s k ∙ ground (arith, other, found), named)
  ];
}
  where
    left : (k : ℕ) → count k (erase h used) + (if h == k then 1 else 0) ≡ count k used
    left k = count-erase h k used (omega arith)

-- Releasing a handle that is held makes it unknown: it counts as complete and has no result, the
-- other transfers are untouched, and the handle is free again.
pub release_transfer-Inv :
    (s : State) (used : List ℕ) (h : ℕ)
    → Inv s used
    → count h used ≡ 1
    → let s' = release_transfer h s in
      Inv s' (erase h used)
      × (is_transfer_complete s' h ≡ true)
      × (get_transfer_result s' h ≡ (err_invalid_handle, 0))
      × ((k : ℕ) → k ≢ h → find_context s' k ≡ find_context s k)
unfolding is_transfer_complete get_transfer_result
release_transfer-Inv s used h v held =
    let gone : find_context (release_transfer h s) h ≡ none =
      ground (arith, find_context-release h s h) in
    (
      release_transfer-keeps s used h v held,
      rw (gone, is_transfer_complete) refl,
      rw (gone, get_transfer_result) refl,
      λ k ne. ground (arith, ne, find_context-release h s k),
    )

-- The rounds in which `waitTransfer` goes on: not finished, and the time has not run out.
abbrev pub GoesOn : ℤ → Look → Type 0
GoesOn (pos t) l = (l.finished ≡ false) × (l.elapsed_ms < t)
GoesOn (negsuc n) l = l.finished ≡ false

passes :
    (timeout_ms : ℤ) (before after : List Look)
    → All (GoesOn timeout_ms) before
    → wait_loop timeout_ms (before ++ after) ≡ wait_loop timeout_ms after
unfolding wait_loop
passes timeout_ms [] after b = refl
passes (pos t) (l ∷ before) after b = ground (arith, b.0, passes (pos t) before after b.1)
passes (negsuc n) (l ∷ before) after b = ground (arith, b.0, passes (negsuc n) before after b.1)

round_finished :
    (timeout_ms : ℤ) (l : Look) (after : List Look)
    → l.finished ≡ true
    → wait_loop timeout_ms (l ∷ after) ≡ some l.error_code
unfolding wait_loop
round_finished timeout_ms l after f = rw f refl

round_late :
    (timeout_ms : ℤ) (t : ℕ) (l : Look) (after : List Look)
    → timeout_ms ≡ pos t
    → l.finished ≡ false
    → t ≤ l.elapsed_ms
    → wait_loop timeout_ms (l ∷ after) ≡ some err_timeout
unfolding wait_loop
round_late timeout_ms t l after e f p = rw (e, f) (ground (arith, p))

-- `waitTransfer` of a known handle waits through the rounds in which it should, and returns in the
-- first other one: with the transfer's error code if it is finished, and else with a timeout, which
-- a negative `timeout_ms` never gives.
pub wait_transfer-returns :
    (s : State) (h : ℕ) (timeout_ms : ℤ) (before : List Look) (l : Look) (after : List Look)
    → find_context s h ≢ none
    → All (GoesOn timeout_ms) before
    → (l.finished ≡ true → wait_transfer s h timeout_ms (before ++ (l ∷ after)) ≡ some l.error_code)
      × ((t : ℕ)
          → timeout_ms ≡ pos t
          → l.finished ≡ false
          → t ≤ l.elapsed_ms
          → wait_transfer s h timeout_ms (before ++ (l ∷ after)) ≡ some err_timeout)
      × (wait_transfer s h timeout_ms before ≡ none)
unfolding wait_transfer
wait_transfer-returns s h timeout_ms before l after known b =
    elim (Option-cases (find_context s h)) [
      | inl e ↦ absurd (known e)
      | inr (ctx, e) ↦ (
        λ f.
            rw (e, wait_transfer)
              (passes timeout_ms before (l ∷ after) b ∙ round_finished timeout_ms l after f),
        λ t et f p.
            rw (e, wait_transfer)
              (passes timeout_ms before (l ∷ after) b ∙ round_late timeout_ms t l after et f p),
        rw (e, wait_transfer)
            (subst (λ (x : List Look). wait_loop timeout_ms x ≡ none) (append-nil before)
              (passes timeout_ms before [] b)),
      )
    ]
