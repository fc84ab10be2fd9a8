-- ===== src/Worker/Posting/Rounds.antt =====
-- One round of the posting loop, case by case.
use ucl_mpcomm.Common.{
  ltb, ◌==◌, Bool-cases, Option-cases, ℤ, word, ℕ, ◌-◌, ◌≤◌, ◌<◌, min, ◌≡◌, refl, ◌≢◌, ◌⊎◌, inl,
  inr, true, false, none, some, List, arith,
}
use ucl_mpcomm.Errors.{err_memory, err_connection, err_transfer}
use ucl_mpcomm.Chunks.{get_chunk}
use ucl_mpcomm.Nics.{all_nics_from}
use ucl_mpcomm.Nics.Laws.{mem}
use ucl_mpcomm.Worker.{Progress, WorkerState}
use ucl_mpcomm.Worker.Cache.{Fabric, NicConnCache, Resolved, resolve}
use ucl_mpcomm.Worker.Posting.{
  SendWr, PostSetup, Round, nic_full, qp_full, assigned, failed, posted, is_proxy, eff_outstanding,
  eff_max, max_outstanding_per_nic, has_room, select_nic, qp_has_room, qp_outstanding, select_qp,
  send_wr, stop, count_posted, count_chunk, post_on, assign_chunk, post_chunk,
}
use ucl_mpcomm.Worker.Posting.Pick.{IsLeast, pick-IsLeast, pick-NoneBelow}

module _ (setup : PostSetup) (fabric : Fabric) (cache : NicConnCache) (g : List ℕ) where
  -- The connection that the round uses for the next chunk.
  abbrev pub connection : Progress → ℕ → ℕ → Resolved
  connection ctx nic qp_index =
      resolve fabric cache ctx nic qp_index (get_chunk ctx.chunks ctx.next_chunk_idx)

  -- The NIC that a round may use is a candidate, is not in quarantine, has room, and none of the
  -- others has less to do.
  abbrev pub IsBestNic : WorkerState → Progress → ℕ → Type 0
  IsBestNic w ctx nic =
      IsLeast (has_room setup g w ctx) (eff_outstanding setup g w ctx) ctx.candidate_nic_indices nic

  abbrev pub IsBestQp : WorkerState → ℕ → ℕ → Type 0
  IsBestQp w nic qp_index =
      IsLeast (qp_has_room setup w nic) (qp_outstanding w nic)
        (all_nics_from 0 setup.qps_per_connection) qp_index

  select_nic-IsBestNic :
      (w : WorkerState) (ctx : Progress) (nic : ℕ)
      → select_nic setup g w ctx ≡ some nic
      → IsBestNic w ctx nic
  unfolding select_nic
  select_nic-IsBestNic w ctx nic e = pick-IsLeast _ _ _ nic e

  select_qp-IsBestQp :
      (w : WorkerState) (nic qp_index : ℕ)
      → select_qp setup w nic ≡ some qp_index
      → IsBestQp w nic qp_index
  unfolding select_qp
  select_qp-IsBestQp w nic qp_index e = pick-IsLeast _ _ _ qp_index e

  -- No candidate NIC has room.
  abbrev pub NicsFull : WorkerState → Progress → Type 0
  NicsFull w ctx =
      (nic : ℕ) → mem nic ctx.candidate_nic_indices ≡ true → has_room setup g w ctx nic ≡ false

  -- Each queue pair of a NIC has as many requests outstanding as it may have.
  abbrev pub QpsFull : WorkerState → ℕ → Type 0
  QpsFull w nic =
      (qp_index : ℕ)
      → mem qp_index (all_nics_from 0 setup.qps_per_connection) ≡ true
      → min setup.max_outstanding_per_qp (word - 1) ≤ qp_outstanding w nic qp_index

  eff_max-small : (ctx : Progress) (nic : ℕ) → eff_max setup ctx nic < word
  unfolding eff_max max_outstanding_per_nic
  eff_max-small ctx nic = ground arith

  has_room-small :
      (w : WorkerState) (ctx : Progress) (nic : ℕ)
      → has_room setup g w ctx nic ≡ true
      → eff_outstanding setup g w ctx nic < word - 1
  unfolding has_room
  has_room-small w ctx nic e = ground (arith, e, eff_max-small ctx nic)

  select_nic-NicsFull :
      (w : WorkerState) (ctx : Progress) → select_nic setup g w ctx ≡ none → NicsFull w ctx
  unfolding select_nic
  select_nic-NicsFull w ctx e nic m = elim (Bool-cases (has_room setup g w ctx nic)) [
    | inr full ↦ full
    | inl room ↦
        absurd (omega (arith, has_room-small w ctx nic room, pick-NoneBelow _ _ _ e nic m room))
  ]

  select_qp-QpsFull : (w : WorkerState) (nic : ℕ) → select_qp setup w nic ≡ none → QpsFull w nic
  unfolding select_qp qp_has_room
  select_qp-QpsFull w nic e qp_index m =
      elim (Bool-cases (ltb (qp_outstanding w nic qp_index) setup.max_outstanding_per_qp)) [
        | inr full ↦ ground (arith, full)
        | inl room ↦ ground (arith, pick-NoneBelow _ _ _ e qp_index m room)
      ]

  pub record Sent (w : WorkerState) (ctx : Progress) (qp : ℕ) (wr : SendWr) (w' : WorkerState)
      (ctx' : Progress) : Type 0 where
    pub nic : ℕ
    pub qp_index : ℕ
    pub direct : is_proxy ctx nic ≡ false
    pub best_nic : IsBestNic w ctx nic
    pub best_qp : IsBestQp w nic qp_index
    pub lkey_valid : (connection ctx nic qp_index).lkey ≢ 0
    pub rkey_valid : (connection ctx nic qp_index).rkey ≢ 0
    pub on_qp : (connection ctx nic qp_index).qp ≡ some qp
    pub accepted : setup.ibv_post_send qp wr ≡ true
    pub request :
        wr
        ≡ send_wr nic qp_index ctx
            (get_chunk ctx.chunks ctx.next_chunk_idx)
            (connection ctx nic qp_index)
    pub worker : w' ≡ count_posted nic qp_index w
    pub context :
        ctx' ≡ count_chunk nic qp_index (get_chunk ctx.chunks ctx.next_chunk_idx).length ctx

  -- Why a transfer fails: there is no local key; there is one, but no remote key or no queue pair;
  -- or all are there, and the queue pair refuses the request.
  abbrev pub Cause : Progress → ℕ → ℕ → Progress → Type 0
  Cause ctx nic qp_index ctx' =
      let c = connection ctx nic qp_index in
      let wr = send_wr nic qp_index ctx (get_chunk ctx.chunks ctx.next_chunk_idx) c in
      ((c.lkey ≡ 0) × (ctx' ≡ stop err_memory ctx))
      ⊎ (((c.lkey ≢ 0) × ((c.rkey ≡ 0) ⊎ (c.qp ≡ none)) × (ctx' ≡ stop err_connection ctx))
          ⊎ ((qp : ℕ) × (c.lkey ≢ 0)
              × (c.rkey ≢ 0)
              × (c.qp ≡ some qp)
              × (setup.ibv_post_send qp wr ≡ false)
              × (ctx' ≡ stop err_transfer ctx)))

  pub record Refused (w : WorkerState) (ctx ctx' : Progress) : Type 0 where
    pub nic : ℕ
    pub qp_index : ℕ
    pub direct : is_proxy ctx nic ≡ false
    pub best_nic : IsBestNic w ctx nic
    pub best_qp : IsBestQp w nic qp_index
    pub cause : Cause ctx nic qp_index ctx'

  -- Whatever the cause, only the error code and the flag change.
  pub Refused-stop :
      (w : WorkerState) (ctx ctx' : Progress)
      → Refused w ctx ctx'
      → (code : ℤ) × (ctx' ≡ stop code ctx)
  Refused-stop w ctx ctx' r = elim r.cause [
    | inl (no_lkey, e) ↦ (err_memory, e)
    | inr (inl (lkey, which, e)) ↦ (err_connection, e)
    | inr (inr (qp, lkey, rkey, on_qp, refused, e)) ↦ (err_transfer, e)
  ]

  -- What each way to end a round means.
  unfoldable pub View : WorkerState → Progress → Round → Type 0
  View w ctx nic_full = NicsFull w ctx
  View w ctx qp_full = (nic : ℕ) × (is_proxy ctx nic ≡ false) × IsBestNic w ctx nic × QpsFull w nic
  View w ctx (assigned g' ctx') =
      (nic : ℕ) × (is_proxy ctx nic ≡ true)
      × IsBestNic w ctx nic
      × (assigned g' ctx' ≡ assign_chunk g ctx nic)
  View w ctx (failed ctx') = Refused w ctx ctx'
  View w ctx (posted qp wr w' ctx') = Sent w ctx qp wr w' ctx'

  module _ (w : WorkerState) (ctx : Progress) where
    post_on-View :
        (nic qp_index : ℕ)
        → is_proxy ctx nic ≡ false
        → IsBestNic w ctx nic
        → IsBestQp w nic qp_index
        → View w ctx (post_on setup fabric cache w ctx nic qp_index)
    unfolding View post_on
    post_on-View nic qp_index direct best_nic best_qp =
        let r = connection ctx nic qp_index in
        elim (Bool-cases (r.lkey == 0)) [
          | inl no_lkey ↦
              rw (no_lkey, post_on)
                record {
                  nic = nic;
                  qp_index = qp_index;
                  direct = direct;
                  best_nic = best_nic;
                  best_qp = best_qp;
                  cause = inl (ground (arith, no_lkey), refl);
                }
          | inr lkey ↦ elim (Bool-cases (r.rkey == 0)) [
            | inl no_rkey ↦
                rw (lkey, no_rkey, post_on)
                  record {
                    nic = nic;
                    qp_index = qp_index;
                    direct = direct;
                    best_nic = best_nic;
                    best_qp = best_qp;
                    cause = inr (inl (ground (arith, lkey), inl (ground (arith, no_rkey)), refl));
                  }
            | inr rkey ↦ elim (Option-cases r.qp) [
              | inl no_qp ↦
                  rw (lkey, rkey, no_qp, post_on)
                    record {
                      nic = nic;
                      qp_index = qp_index;
                      direct = direct;
                      best_nic = best_nic;
                      best_qp = best_qp;
                      cause = inr (inl (ground (arith, lkey), inr no_qp, refl));
                    }
              | inr (qp, on_qp) ↦
                  let wr = send_wr nic qp_index ctx (get_chunk ctx.chunks ctx.next_chunk_idx) r in
                  elim (Bool-cases (setup.ibv_post_send qp wr)) [
                    | inl accepted ↦
                        rw (lkey, rkey, on_qp, accepted, post_on)
                          record {
                            nic = nic;
                            qp_index = qp_index;
                            direct = direct;
                            best_nic = best_nic;
                            best_qp = best_qp;
                            lkey_valid = ground (arith, lkey);
                            rkey_valid = ground (arith, rkey);
                            on_qp = on_qp;
                            accepted = accepted;
                            request = refl;
                            worker = refl;
                            context = refl;
                          }
                    | inr refused ↦
                        rw (lkey, rkey, on_qp, refused, post_on)
                          record {
                            nic = nic;
                            qp_index = qp_index;
                            direct = direct;
                            best_nic = best_nic;
                            best_qp = best_qp;
                            cause = inr (
                                inr (
                                  qp,
                                  ground (arith, lkey),
                                  ground (arith, rkey),
                                  on_qp,
                                  refused,
                                  refl,
                                ));
                          }
                  ]
            ]
          ]
        ]

    pub post_chunk-View : View w ctx (post_chunk setup fabric cache g w ctx)
    unfolding View post_chunk
    post_chunk-View = elim (Option-cases (select_nic setup g w ctx)) [
      | inl none_free ↦ rw (none_free, post_chunk) (select_nic-NicsFull w ctx none_free)
      | inr (nic, e) ↦
          let best = select_nic-IsBestNic w ctx nic e in
          elim (Bool-cases (is_proxy ctx nic)) [
            | inl proxy ↦ rw (e, proxy, post_chunk) (nic, proxy, best, refl)
            | inr direct ↦ elim (Option-cases (select_qp setup w nic)) [
              | inl no_qp ↦
                  rw (e, direct, no_qp, post_chunk)
                    (nic, direct, best, select_qp-QpsFull w nic no_qp)
              | inr (qp_index, e2) ↦
                  rw (e, direct, e2, post_chunk)
                    (post_on-View nic qp_index direct best (select_qp-IsBestQp w nic qp_index e2))
            ]
          ]
    ]
