-- ===== src/Worker/Loop/Invariant.antt =====
-- The invariant of the worker loop.
use ucl_mpcomm.Common.{
  if◌then◌else◌, ℕ, ◌≡◌, refl, ◌∙◌, true, false, ◌||◌, List, [], ◌∷◌, ◌++◌, arith,
}
use ucl_mpcomm.Worker.Loop.{Loop, Draining, has, add_nics, candidates_of}
use ucl_mpcomm.Worker.Loop.Drain.{handles}
use ucl_mpcomm.Worker.Loop.Evolve.{Evolves}

pub record LoopInv (s : Loop) : Type 0 where
  pub polled :
      (h nic : ℕ)
      → has h (handles s.active_contexts) ≡ true
      → has nic (candidates_of (s.worker.transfers h)) ≡ true
      → has nic s.poll_nic_indices ≡ true

has-append : (x : ℕ) (ys zs : List ℕ) → has x (ys ++ zs) ≡ has x ys || has x zs
has-append x [] zs = refl
has-append x (y ∷ ys) zs = ground (arith, has-append x ys zs)

pub has-add_nics :
    (x : ℕ) (nics seen : List ℕ) → has x (add_nics nics seen) ≡ has x nics || has x seen
unfolding add_nics
has-add_nics x [] seen = refl
has-add_nics x (nic ∷ nics) seen =
    has-add_nics x nics (if has nic seen then seen else seen ++ (nic ∷ []))
    ∙ ground (arith, has-append x seen (nic ∷ []))

-- Phase 1.
record Kept (d d' : Draining) : Type 0 where
  evolves : Evolves d.transfers d'.transfers
  unchanged : d'.need_rebuild_nics ≡ false → d'.active_contexts ≡ d.active_contexts
