-- ===== src/QueuePair/Steps.antt =====
-- The steps that make a queue pair ready to send, in their order.
use ucl_mpcomm.Common.{
  Bool-cases, eq_ℤ, ℕ, ◌≡◌, refl, subst, inl, inr, Bool, true, List, ◌∷◌, arith,
}
use ucl_mpcomm.Errors.{success}
use ucl_mpcomm.Gid.{string_to_gid}
use ucl_mpcomm.QueuePair.{
  NicPort, RemoteEndpointInfo, QpAttr, init, rtr, rts, change, modify_qp_to_init, modify_qp_to_rtr,
  modify_qp_to_rts,
}

abbrev pub towards : NicPort → RemoteEndpointInfo → QpAttr
towards nic e = rtr nic (string_to_gid e.gid) e.lid e.qp_num

module _ (ibv_modify_qp : ℕ → List QpAttr → QpAttr → Bool) where
  -- After the changes `done`, the queue pair went to init, then to ready to receive from an
  -- endpoint, then to ready to send.
  pub record IsUp (nic : NicPort) (e : RemoteEndpointInfo) (qp : ℕ) (done : List QpAttr)
      : Type 0 where
    pub was_init : ibv_modify_qp qp done (init nic.port) ≡ true
    pub was_rtr : ibv_modify_qp qp (init nic.port ∷ done) (towards nic e) ≡ true
    pub was_rts : ibv_modify_qp qp (towards nic e ∷ init nic.port ∷ done) rts ≡ true

  pub change-success :
      (qp : ℕ) (done : List QpAttr) (attr : QpAttr)
      → eq_ℤ (change ibv_modify_qp qp done attr).0 success ≡ true
      → (ibv_modify_qp qp done attr ≡ true) × ((change ibv_modify_qp qp done attr).1 ≡ attr ∷ done)
  unfolding change
  change-success qp done attr = elim (Bool-cases (ibv_modify_qp qp done attr)) [
    | inl ok ↦ rw (ok, change) (λ e. (refl, refl))
    | inr bad ↦ rw (bad, change) (λ e. absurd (ground (arith, e)))
  ]

  pub steps-IsUp :
      (nic : NicPort) (remote : RemoteEndpointInfo) (qp : ℕ) (done : List QpAttr)
      → let in_init = modify_qp_to_init ibv_modify_qp nic qp done in
        let in_rtr = modify_qp_to_rtr ibv_modify_qp nic qp remote in_init.1 in
        let in_rts = modify_qp_to_rts ibv_modify_qp qp in_rtr.1 in
        eq_ℤ in_init.0 success ≡ true
        → eq_ℤ in_rtr.0 success ≡ true
        → eq_ℤ in_rts.0 success ≡ true
        → IsUp nic remote qp done
  unfolding modify_qp_to_init modify_qp_to_rtr modify_qp_to_rts
  steps-IsUp nic remote qp done = λ e1 e2 e3.
      let (ok1, after1) = change-success qp done (init nic.port) e1 in
      let (ok2, after2) = change-success qp _ (towards nic remote) e2 in
      let (ok3, after3) = change-success qp _ rts e3 in
      let second : ibv_modify_qp qp (init nic.port ∷ done) (towards nic remote) ≡ true =
        subst (λ d. ibv_modify_qp qp d (towards nic remote) ≡ true) after1 ok2 in
      record {
        was_init = ok1;
        was_rtr = second;
        was_rts =
            subst (λ d. ibv_modify_qp qp (towards nic remote ∷ d) rts ≡ true) after1
              (subst (λ d. ibv_modify_qp qp d rts ≡ true) after2 ok3);
      }
