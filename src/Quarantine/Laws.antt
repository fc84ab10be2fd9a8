-- ===== src/Quarantine/Laws.antt =====
-- When a NIC leaves quarantine.
use ucl_mpcomm.Common.{
  ltb, Bool-cases, Option-cases, get_elem?, All, add64, ℕ, zero, suc, ◌+◌, ◌≡◌, refl, sym, ap,
  subst, ◌∙◌, ◌⊎◌, inl, inr, Bool, true, false, ◌&&◌, Option, none, some, List, [], ◌∷◌, arith,
}
use ucl_mpcomm.QueuePair.{RemoteEndpointInfo, NicPort, reset, change, key_host, key_remote}
use ucl_mpcomm.QueuePair.Steps.{IsUp, change-success, steps-IsUp}
use ucl_mpcomm.Quarantine.{
  Quarantined, Probe, no_endpoint, endpoint_at, endpoint_for, rebuild_qp, rebuild_list, rebuild_all,
  ProbedNic, probe_nic, probe_from, probe_quarantined_nics,
}

endpoint_at-get_elem? : (es : List RemoteEndpointInfo) (i : ℕ) → endpoint_at es i ≡ get_elem? es i
unfolding endpoint_at
endpoint_at-get_elem? [] i = refl
endpoint_at-get_elem? (e ∷ es) zero = refl
endpoint_at-get_elem? (e ∷ es) (suc i) = endpoint_at-get_elem? es i

&&-true : (a b : Bool) → (a && b) ≡ true → (a ≡ true) × (b ≡ true)
&&-true a b e = ground (arith, e)

abbrev pub get_or_else : Option ℕ → ℕ → ℕ
get_or_else none d = d
get_or_else (some n) d = n

module _ (p : Probe) where
  -- The endpoint of a connection's remote NIC, with the queue pair number that the queue pair has in
  -- use if it can be asked; without a connection to that NIC an empty one.
  abbrev pub IsEndpoint : List ℕ → ℕ → ℕ → RemoteEndpointInfo → Type 0
  IsEndpoint host_id remote_nic qp e =
      ((p.connections host_id ≡ none) × (e ≡ no_endpoint))
      ⊎ ((es : List RemoteEndpointInfo) × (p.connections host_id ≡ some es)
          × (((get_elem? es remote_nic ≡ none) × (e ≡ no_endpoint))
              ⊎ ((r : RemoteEndpointInfo) × (get_elem? es remote_nic ≡ some r)
                  × (e.gid ≡ r.gid)
                  × (e.lid ≡ r.lid)
                  × (e.qp_num ≡ get_or_else (p.ibv_query_qp qp) r.qp_num))))

  -- A queue pair was reset and then brought up again towards the endpoint of its connection.
  pub record Rebuilt (nic : NicPort) (host_id : List ℕ) (remote_nic qp : ℕ) : Type 0 where
    pub endpoint : RemoteEndpointInfo
    pub right : IsEndpoint host_id remote_nic qp endpoint
    pub was_reset : p.ibv_modify_qp qp [] reset ≡ true
    pub is_up : IsUp p.ibv_modify_qp nic endpoint qp (reset ∷ [])

  endpoint_for-IsEndpoint :
      (host_id : List ℕ) (remote_nic qp : ℕ)
      → IsEndpoint host_id remote_nic qp (endpoint_for p host_id remote_nic qp)
  unfolding endpoint_for
  endpoint_for-IsEndpoint host_id remote_nic qp = elim (Option-cases (p.connections host_id)) [
    | inl e ↦ rw (e, endpoint_for) (inl (refl, refl))
    | inr (es, e) ↦ elim (Option-cases (endpoint_at es remote_nic)) [
      | inl e2 ↦
          rw (e, endpoint_for, e2)
            (inr (es, refl, inl (sym (endpoint_at-get_elem? es remote_nic) ∙ e2, refl)))
      | inr (r, e2) ↦
          let at : get_elem? es remote_nic ≡ some r =
            sym (endpoint_at-get_elem? es remote_nic) ∙ e2 in
          elim (Option-cases (p.ibv_query_qp qp)) [
            | inl e3 ↦ rw (e, endpoint_for, e2, e3) (inr (es, refl, inr (r, at, refl, refl, refl)))
            | inr (n, e3) ↦
                rw (e, endpoint_for, e2, e3) (inr (es, refl, inr (r, at, refl, refl, refl)))
          ]
    ]
  ]

  abbrev pub AllRebuilt : NicPort → List (List ℕ × List ℕ) → Type 0
  AllRebuilt nic qp_map =
      All (λ entry. All (Rebuilt nic (key_host entry.0) (p.stoul (key_remote entry.0))) entry.1)
        qp_map

  rebuild_qp-Rebuilt :
      (nic : NicPort) (host_id : List ℕ) (remote_nic qp : ℕ)
      → rebuild_qp p nic (endpoint_for p host_id remote_nic qp) qp ≡ true
      → Rebuilt nic host_id remote_nic qp
  unfolding rebuild_qp
  rebuild_qp-Rebuilt nic host_id remote_nic qp e =
      let rinfo = endpoint_for p host_id remote_nic qp in
      let in_reset = change p.ibv_modify_qp qp [] reset in
      let (e0, rest0) = &&-true _ _ e in
      let (e1, rest1) = &&-true _ _ rest0 in
      let (e2, e3) = &&-true _ _ rest1 in
      let (was_reset, after) = change-success p.ibv_modify_qp qp [] reset e0 in
      record {
        endpoint = rinfo;
        right = endpoint_for-IsEndpoint host_id remote_nic qp;
        was_reset = was_reset;
        is_up =
            subst (IsUp p.ibv_modify_qp nic rinfo qp) after
              (steps-IsUp p.ibv_modify_qp nic rinfo qp in_reset.1 e1 e2 e3);
      }

  rebuild_list-Rebuilt :
      (nic : NicPort) (host_id : List ℕ) (remote_nic : ℕ) (qps : List ℕ)
      → rebuild_list p nic host_id remote_nic qps ≡ true
      → All (Rebuilt nic host_id remote_nic) qps
  unfolding rebuild_list
  rebuild_list-Rebuilt nic host_id remote_nic [] e = tt
  rebuild_list-Rebuilt nic host_id remote_nic (qp ∷ qps) e = (
    rebuild_qp-Rebuilt nic host_id remote_nic qp (ground (arith, e)),
    rebuild_list-Rebuilt nic host_id remote_nic qps (ground (arith, e)),
  )

  rebuild_all-Rebuilt :
      (nic : NicPort) (qp_map : List (List ℕ × List ℕ))
      → rebuild_all p nic qp_map ≡ true
      → AllRebuilt nic qp_map
  unfolding rebuild_all
  rebuild_all-Rebuilt nic [] e = tt
  rebuild_all-Rebuilt nic ((key, qps) ∷ rest) e = (
    rebuild_list-Rebuilt nic (key_host key) (p.stoul (key_remote key)) qps (ground (arith, e)),
    rebuild_all-Rebuilt nic rest (ground (arith, e)),
  )

  -- A NIC was in quarantine for long enough, its port is active and all its queue pairs are rebuilt:
  -- it is admitted with a clean record.
  pub record Readmitted (now nic : ℕ) (n : ProbedNic) (after : Quarantined) : Type 0 where
    pub was_in : n.quarantine.state.in_quarantine ≡ true
    pub waited : p.waited now n.quarantine.quarantine_since ≡ true
    pub active : p.port_active nic ≡ true
    pub rebuilt : AllRebuilt n.port n.qp_map
    pub is_out : after.state.in_quarantine ≡ false
    pub forgiven : after.state.consecutive_errors ≡ 0

  -- The period starts again.
  pub record Requarantined (now : ℕ) (n : ProbedNic) (after : Quarantined) : Type 0 where
    pub was_in : n.quarantine.state.in_quarantine ≡ true
    pub waited : p.waited now n.quarantine.quarantine_since ≡ true
    pub same : after.state ≡ n.quarantine.state
    pub restarted : after.quarantine_since ≡ now

  abbrev pub Probed : ℕ → ℕ → ProbedNic → Quarantined → Type 0
  Probed now nic n after =
      (after ≡ n.quarantine) ⊎ (Requarantined now n after ⊎ Readmitted now nic n after)

  probe_nic-Probed : (now nic : ℕ) (n : ProbedNic) → Probed now nic n (probe_nic p now nic n)
  unfolding probe_nic
  probe_nic-Probed now nic n =
      let q = n.quarantine in
      elim (Bool-cases q.state.in_quarantine) [
        | inr out ↦ rw (out, probe_nic) (inl refl)
        | inl was_in ↦ elim (Bool-cases (p.waited now q.quarantine_since)) [
          | inr early ↦ rw (was_in, early, probe_nic) (inl refl)
          | inl waited ↦
              let again : (after : Quarantined)
                  → after ≡ record q { quarantine_since = now }
                  → Probed now nic n after =
                λ after e. inr (
                  inl (record {
                    was_in = was_in;
                    waited = waited;
                    same = ap (λ (x : Quarantined). x.state) e;
                    restarted = ap (λ (x : Quarantined). x.quarantine_since) e;
                  })) in
              elim (Bool-cases (p.port_active nic)) [
                | inr down ↦ again _ (rw (was_in, waited, down, probe_nic) refl)
                | inl active ↦ elim (Bool-cases (rebuild_all p n.port n.qp_map)) [
                  | inr failed ↦ again _ (rw (was_in, waited, active, failed, probe_nic) refl)
                  | inl rebuilt ↦
                      let admitted : (after : Quarantined)
                          → after ≡ record q {
                            state = record { consecutive_errors = 0; in_quarantine = false };
                          }
                          → Probed now nic n after =
                        λ after e. inr (
                          inr (record {
                            was_in = was_in;
                            waited = waited;
                            active = active;
                            rebuilt = rebuild_all-Rebuilt n.port n.qp_map rebuilt;
                            is_out = ap (λ (x : Quarantined). x.state.in_quarantine) e;
                            forgiven = ap (λ (x : Quarantined). x.state.consecutive_errors) e;
                          })) in
                      admitted _ (rw (was_in, waited, active, rebuilt, probe_nic) refl)
                ]
              ]
        ]
      ]

  probe_from-Probed :
      (now first : ℕ) (ns : List ProbedNic) (i : ℕ) (n : ProbedNic)
      → get_elem? ns i ≡ some n
      → (after : Quarantined) × (get_elem? (probe_from p now first ns) i
          ≡ some (record n { quarantine = after }))
        × Probed now (first + i) n after
  unfolding probe_from
  probe_from-Probed now first [] i n e = absurd (ground (arith, e))
  probe_from-Probed now first (m ∷ ms) zero n e =
      let same : m ≡ n = ap (λ (o : Option ProbedNic). elim o [ none ↦ m | some x ↦ x ]) e in
      let f : ProbedNic → Option ProbedNic =
        λ x. some (record x { quarantine = probe_nic p now first x }) in
      (
        probe_nic p now first n,
        ap f same,
        subst (λ k. Probed now k n (probe_nic p now first n)) (omega arith)
            (probe_nic-Probed now first n),
      )
  probe_from-Probed now first (m ∷ ms) (suc i) n e =
      let (after, at, probed) = probe_from-Probed now (suc first) ms i n e in
      (after, at, subst (λ k. Probed now k n after) (omega arith) probed)

  -- A call of the probe changes the quarantine of a NIC in two ways only: one that was in quarantine
  -- for the whole period starts a new period; or, if in addition its port is active and each of its
  -- queue pairs went through reset, init, ready to receive and ready to send, in this order, towards
  -- the endpoint of its connection (an empty one if it has none), it leaves quarantine with no errors
  -- counted.
  pub probe_quarantined_nics-Probed :
      (now counter : ℕ) (ns : List ProbedNic) (i : ℕ) (n : ProbedNic)
      → get_elem? ns i ≡ some n
      → (after : Quarantined) × (get_elem? (probe_quarantined_nics p now counter ns).1 i
          ≡ some (record n { quarantine = after }))
        × Probed now i n after
  unfolding probe_quarantined_nics
  probe_quarantined_nics-Probed now counter ns i n e =
      elim (Bool-cases (ltb (add64 counter 1) p.interval_loops)) [
        | inl not_now ↦ rw (not_now, probe_quarantined_nics) (n.quarantine, e, inl refl)
        | inr due ↦
            let (after, at, probed) = probe_from-Probed now 0 ns i n e in
            rw (due, probe_quarantined_nics)
              (after, at, subst (λ k. Probed now k n after) (omega arith) probed)
      ]
