-- ===== src/Worker/Posting/Flow.antt =====
-- The limits of the configuration on the worker's counters, and what a chosen NIC and queue pair have
-- left of them.
use ucl_mpcomm.Common.{
  get_or, add64, sub64, ℕ, ◌+◌, ◌≤◌, ◌<◌, ◌≡◌, refl, subst, ◌⊎◌, inl, inr, true, false, some, List,
  arith,
}
use ucl_mpcomm.Worker.{Progress, WorkerState}
use ucl_mpcomm.Worker.Counters.{get_or-bump, get_or-bump_2}
use ucl_mpcomm.Worker.Cache.{Fabric, NicConnCache}
use ucl_mpcomm.Worker.Posting.{
  PostSetup, is_proxy, eff_outstanding, eff_max, has_room, qp_has_room, select_qp, nic_outstanding,
  qp_outstanding, max_outstanding_per_nic, count_posted,
}
use ucl_mpcomm.Worker.Posting.Pick.{pick-IsLeast}

-- One more posted, one more completed.
sub64-posted : (p c : ℕ) → sub64 (add64 p 1) c ≤ sub64 p c + 1
sub64-posted p c = omega arith

sub64-completed : (p c : ℕ) → 0 < sub64 p c → sub64 p (add64 c 1) ≤ sub64 p c
sub64-completed p c h = omega (arith, h)

nic_outstanding-count_posted :
    (nic qp : ℕ) (w : WorkerState) (k : ℕ)
    → let after = nic_outstanding (count_posted nic qp w) k in
      (after ≡ nic_outstanding w k) ⊎ ((nic ≡ k) × (after ≤ nic_outstanding w k + 1))
unfolding nic_outstanding count_posted
nic_outstanding-count_posted nic qp w k = elim (get_or-bump w.worker_nic_posted nic k) [
  | inl same ↦ inl (rw (same) refl)
  | inr (at, e) ↦ inr (
    at,
    rw (e) (sub64-posted (get_or w.worker_nic_posted k 0) (get_or w.worker_nic_completed k 0)),
  )
]

qp_outstanding-count_posted :
    (nic qp : ℕ) (w : WorkerState) (k l : ℕ)
    → let after = qp_outstanding (count_posted nic qp w) k l in
      (after ≡ qp_outstanding w k l) ⊎ ((nic ≡ k) × (qp ≡ l) × (after ≤ qp_outstanding w k l + 1))
unfolding qp_outstanding count_posted
qp_outstanding-count_posted nic qp w k l = elim (get_or-bump_2 w.worker_nic_qp_posted nic qp k l) [
  | inl same ↦ inl (rw (same) refl)
  | inr (at, at_qp, e) ↦ inr (at, at_qp, rw (e) (sub64-posted _ _))
]

-- The limits that the configuration sets.
pub record WithinLimits (setup : PostSetup) (w : WorkerState) : Type 0 where
  pub on_nic : (nic : ℕ) → nic_outstanding w nic ≤ max_outstanding_per_nic setup
  pub on_qp : (nic qp : ℕ) → qp_outstanding w nic qp ≤ setup.max_outstanding_per_qp

pub best_qp-room :
    (setup : PostSetup) (w : WorkerState) (nic qp : ℕ)
    → qp_has_room setup w nic qp ≡ true
    → qp_outstanding w nic qp < setup.max_outstanding_per_qp
unfolding qp_has_room
best_qp-room setup w nic qp room = ground (arith, room)

pub count_posted-WithinLimits :
    (setup : PostSetup) (w : WorkerState) (nic qp : ℕ)
    → WithinLimits setup w
    → nic_outstanding w nic < max_outstanding_per_nic setup
    → qp_outstanding w nic qp < setup.max_outstanding_per_qp
    → WithinLimits setup (count_posted nic qp w)
count_posted-WithinLimits setup w nic qp inv room qp_room = record {
  on_nic = λ k. elim (nic_outstanding-count_posted nic qp w k) [
    | inl same ↦ omega (arith, same, inv.on_nic k)
    | inr (at, e) ↦
        let here : nic_outstanding w k < max_outstanding_per_nic setup =
          subst (λ x. nic_outstanding w x < max_outstanding_per_nic setup) at room in
        omega (arith, e, here)
  ];
  on_qp = λ k l. elim (qp_outstanding-count_posted nic qp w k l) [
    | inl same ↦ omega (arith, same, inv.on_qp k l)
    | inr (at, at_qp, e) ↦
        let here : qp_outstanding w k l < setup.max_outstanding_per_qp =
          subst (λ x. qp_outstanding w x l < setup.max_outstanding_per_qp) at
            (subst (λ y. qp_outstanding w nic y < setup.max_outstanding_per_qp) at_qp qp_room) in
        omega (arith, e, here)
  ];
}

pub select_qp-room :
    (setup : PostSetup) (w : WorkerState) (nic qp : ℕ)
    → select_qp setup w nic ≡ some qp
    → qp_outstanding w nic qp < setup.max_outstanding_per_qp
unfolding select_qp
select_qp-room setup w nic qp e =
    let best = pick-IsLeast (qp_has_room setup w nic) (qp_outstanding w nic) _ qp e in
    best_qp-room setup w nic qp best.fit

module _ (setup : PostSetup) (fabric : Fabric) (cache : NicConnCache) where
  pub best_nic-room :
      (g : List ℕ) (w : WorkerState) (ctx : Progress) (nic : ℕ)
      → is_proxy ctx nic ≡ false
      → has_room setup g w ctx nic ≡ true
      → nic_outstanding w nic < max_outstanding_per_nic setup
  unfolding has_room eff_outstanding eff_max
  best_nic-room g w ctx nic direct room = ground (arith, direct, room)
