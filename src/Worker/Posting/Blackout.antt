-- ===== src/Worker/Posting/Blackout.antt =====
-- A transfer whose candidate NICs are all in quarantine.
use ucl_mpcomm.Common.{
  ltb, Bool-cases, Option-cases, ℕ, zero, suc, ◌-◌, ◌≡◌, refl, inl, inr, true, none, List, [],
  arith,
}
use ucl_mpcomm.Nics.Laws.{mem}
use ucl_mpcomm.Worker.{Progress, WorkerState}
use ucl_mpcomm.Worker.Cache.{Fabric, NicConnCache}
use ucl_mpcomm.Worker.Posting.{
  PostSetup, in_quarantine_now, has_room, eff_outstanding, select_nic, post_chunk, after_round,
  post_loop, post_all,
}
use ucl_mpcomm.Worker.Posting.Pick.{IsLeast, pick-IsLeast}

module _ (setup : PostSetup) (g : List ℕ) (w : WorkerState) (ctx : Progress) where
  select_nic-none :
      ((nic : ℕ)
        → mem nic ctx.candidate_nic_indices ≡ true
        → in_quarantine_now w.nic_quarantine nic ≡ true)
      → select_nic setup g w ctx ≡ none
  unfolding select_nic has_room
  select_nic-none all = elim (Option-cases (select_nic setup g w ctx)) [
    | inl e ↦ e
    | inr (nic, e) ↦
        let l : IsLeast (has_room setup g w ctx) (eff_outstanding setup g w ctx)
            ctx.candidate_nic_indices nic =
          pick-IsLeast _ _ _ nic e in
        absurd (ground (arith, l.fit, all nic l.candidate))
  ]

  post_loop-none :
      (fabric : Fabric) (cache : NicConnCache) (fuel : ℕ)
      → select_nic setup g w ctx ≡ none
      → let p = post_loop fuel setup fabric cache g w ctx in
        (p.requests ≡ []) × (p.worker ≡ w) × (p.ctx ≡ ctx)
  unfolding post_loop post_chunk after_round
  post_loop-none fabric cache zero e = (refl, refl, refl)
  post_loop-none fabric cache (suc fuel) e =
      elim (Bool-cases (ltb ctx.next_chunk_idx ctx.total_chunks)) [
        | inl more ↦ rw (more, post_loop, e, post_chunk) (refl, refl, refl)
        | inr ended ↦ rw (ended, post_loop) (refl, refl, refl)
      ]

  -- While every candidate NIC of a transfer is in quarantine, nothing of it is posted, and the loop
  -- leaves all as it was: the transfer waits and does not fail.
  pub post_all-quarantined :
      (fabric : Fabric) (cache : NicConnCache)
      → ((nic : ℕ)
          → mem nic ctx.candidate_nic_indices ≡ true
          → in_quarantine_now w.nic_quarantine nic ≡ true)
      → let p = post_all setup fabric cache g w ctx in
        (p.requests ≡ []) × (p.worker ≡ w) × (p.ctx ≡ ctx)
  unfolding post_all
  post_all-quarantined fabric cache all =
      post_loop-none fabric cache (ctx.total_chunks - ctx.next_chunk_idx) (select_nic-none all)
