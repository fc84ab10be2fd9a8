-- ===== src/Worker/Routing.antt =====
-- Every completion reaches the transfer that its work-request id names, and no other.
use ucl_mpcomm.Common.{
  ltb, ◌==◌, if◌then◌else◌, lt→ltb, Bool-cases, Option-cases, length, get_or, word, add64, ℕ, ◌+◌,
  ◌^◌, ◌<◌, ◌≡◌, refl, sym, ap, ◌∙◌, ◌≢◌, ◌⊎◌, inl, inr, true, false, not, ◌&&◌, Option, none, some,
  List, [], ◌∷◌, arith, dec_lt, ℕ_discrete,
}
use ucl_mpcomm.Errors.{err_transfer}
use ucl_mpcomm.Worker.Counters.{
  get_or-bump_self, get_or-bump_other, get_or-bump_2_self, get_or-bump_2_other,
}
use ucl_mpcomm.WrId.{encode, decode_nic, decode_qp, decode_handle}
use ucl_mpcomm.WrId.Laws.{decode-encode}
use ucl_mpcomm.Worker.{
  advance, Progress, WorkCompletion, WorkerState, WorkerSetup, count_worker, route, put_progress,
  complete, complete_all,
}

-- How many completions of a transfer succeeded, and how many failed.
abbrev pub successes : ℕ → List WorkCompletion → ℕ
successes h [] = 0
successes h (wc ∷ wcs) = (if (decode_handle wc.wr_id == h) && wc.ok then 1 else 0) + successes h wcs

abbrev pub failures : ℕ → List WorkCompletion → ℕ
failures h [] = 0
failures h (wc ∷ wcs) =
    (if (decode_handle wc.wr_id == h) && not wc.ok then 1 else 0) + failures h wcs

-- The transfer `after` some completions, from what it was before.
pub record Advanced (good bad : ℕ) (before after : Progress) : Type 0 where
  pub counted : after.total_completed ≡ before.total_completed + good
  pub failed : 0 < bad → (after.error_code ≡ err_transfer) × (after.finished ≡ true)
  pub intact : bad ≡ 0 → (after.error_code ≡ before.error_code) × (after.finished ≡ before.finished)

pub Advanced-trans :
    (good bad good' bad' : ℕ) (a b c : Progress)
    → Advanced good bad a b
    → Advanced good' bad' b c
    → Advanced (good + good') (bad + bad') a c
Advanced-trans good bad good' bad' a b c p q = record {
  counted = omega (arith, p.counted, q.counted);
  failed = λ some_failed. elim (dec_lt 0 bad') [
    | yes later ↦ q.failed later
    | no never ↦
        let (code, flag) = p.failed (omega (arith, some_failed, never)) in
        let (code', flag') = q.intact (omega (arith, never)) in (code' ∙ code, flag' ∙ flag)
  ];
  intact = λ z.
      let (code, flag) = p.intact (omega (arith, z)) in
      let (code', flag') = q.intact (omega (arith, z)) in (code' ∙ code, flag' ∙ flag);
}

transfers-count_worker :
    (setup : WorkerSetup) (nic qp : ℕ) (s : WorkerState)
    → (count_worker setup nic qp s).transfers ≡ s.transfers
unfolding count_worker
transfers-count_worker setup nic qp s = elim (Bool-cases (ltb nic setup.num_nics)) [
  | inl e ↦ rw (e, count_worker) refl
  | inr e ↦ rw (e, count_worker) refl
]

pub complete-hit :
    (setup : WorkerSetup) (nic : ℕ) (wc : WorkCompletion) (s : WorkerState) (ctx : Progress)
    → s.transfers (decode_handle wc.wr_id) ≡ some ctx
    → (complete setup nic wc s).transfers
      ≡ put_progress s.transfers (decode_handle wc.wr_id) (advance setup wc ctx)
unfolding complete
complete-hit setup nic wc s ctx e = rw (complete, e) refl

pub complete-miss :
    (setup : WorkerSetup) (nic : ℕ) (wc : WorkCompletion) (s : WorkerState)
    → s.transfers (decode_handle wc.wr_id) ≡ none
    → (complete setup nic wc s).transfers ≡ s.transfers
unfolding complete
complete-miss setup nic wc s e =
    rw (complete, e) (transfers-count_worker setup (decode_nic wc.wr_id) (decode_qp wc.wr_id) s)

-- A completion of another transfer.
complete-other :
    (setup : WorkerSetup) (nic h : ℕ) (wc : WorkCompletion) (s : WorkerState)
    → decode_handle wc.wr_id ≢ h
    → (complete setup nic wc s).transfers h ≡ s.transfers h
unfolding put_progress
complete-other setup nic h wc s ne = elim (Option-cases (s.transfers (decode_handle wc.wr_id))) [
  | inl e ↦ ap (λ (f : ℕ → Option Progress). f h) (complete-miss setup nic wc s e)
  | inr (ctx, e) ↦
      ap (λ (f : ℕ → Option Progress). f h) (complete-hit setup nic wc s ctx e) ∙ ground (arith, ne)
]

module _ (setup : WorkerSetup) (strict : setup.tolerate ≡ false) (nic h : ℕ) where
  advance-Advanced :
      (wc : WorkCompletion) (ctx : Progress)
      → decode_handle wc.wr_id ≡ h
      → ctx.total_completed + 1 < word
      → Advanced (successes h (wc ∷ [])) (failures h (wc ∷ [])) ctx (advance setup wc ctx)
  unfolding advance
  advance-Advanced wc ctx same small = elim (Bool-cases wc.ok) [
    | inl good ↦ record {
      counted = ground (arith, same, good, small);
      failed = λ p. absurd (ground (arith, same, good, p));
      intact = λ z. (ground (arith, good), ground (arith, good));
    }
    | inr bad ↦ record {
      counted = ground (arith, same, bad, strict);
      failed = λ p. (ground (arith, bad, strict), ground (arith, bad, strict));
      intact = λ z. absurd (ground (arith, same, bad, z));
    }
  ]

  complete-Advanced :
      (wc : WorkCompletion) (s : WorkerState) (ctx : Progress)
      → s.transfers h ≡ some ctx
      → ctx.total_completed + 1 < word
      → (ctx' : Progress) × ((complete setup nic wc s).transfers h ≡ some ctx')
        × Advanced (successes h (wc ∷ [])) (failures h (wc ∷ [])) ctx ctx'
  unfolding put_progress
  complete-Advanced wc s ctx e small = elim (ℕ_discrete (decode_handle wc.wr_id) h) [
    | yes same ↦
        let at : s.transfers (decode_handle wc.wr_id) ≡ some ctx = ap s.transfers same ∙ e in
        (
          advance setup wc ctx,
          ap (λ (f : ℕ → Option Progress). f h) (complete-hit setup nic wc s ctx at)
              ∙ ground (arith, same),
          advance-Advanced wc ctx same small,
        )
    | no other ↦ (
      ctx,
      complete-other setup nic h wc s other ∙ e,
      record {
        counted = ground (arith, other);
        failed = λ p. absurd (ground (arith, other, p));
        intact = λ z. (refl, refl);
      },
    )
  ]

  -- After any list of completions of one NIC, a transfer has counted exactly its own successful
  -- ones; if one of its own failed it is finished with a transfer error, and else its error code and
  -- its flag are as before.
  pub complete_all-Advanced :
      (wcs : List WorkCompletion) (s : WorkerState) (ctx : Progress)
      → s.transfers h ≡ some ctx
      → ctx.total_completed + length wcs < word
      → (ctx' : Progress) × ((complete_all setup nic wcs s).transfers h ≡ some ctx')
        × Advanced (successes h wcs) (failures h wcs) ctx ctx'
  unfolding complete_all
  complete_all-Advanced [] s ctx e small = (
    ctx,
    e,
    record {
      counted = omega arith;
      failed = λ p. absurd (omega arith);
      intact = λ z. (refl, refl);
    },
  )
  complete_all-Advanced (wc ∷ wcs) s ctx e small =
      let (c, e1, a) = complete-Advanced wc s ctx e (omega (arith, small)) in
      let (c', e2, b) =
        complete_all-Advanced wcs (complete setup nic wc s) c e1
          (ground (arith, a.counted, small)) in
      let both =
        Advanced-trans (successes h (wc ∷ [])) (failures h (wc ∷ [])) (successes h wcs)
          (failures h wcs) ctx c c' a b in
      (
        c',
        e2,
        record {
          counted = omega (arith, both.counted);
          failed = λ p. both.failed (omega (arith, p));
          intact = λ z. both.intact (omega (arith, z));
        },
      )

-- The transfer `after` a chunk completed on a queue pair of a NIC: only the counters of these differ.
pub record CountedOn (nic qp : ℕ) (before after : Progress) : Type 0 where
  pub total : after.total_completed ≡ add64 before.total_completed 1
  pub on_nic :
      get_or after.per_nic_completed nic 0 ≡ add64 (get_or before.per_nic_completed nic 0) 1
  pub other_nics :
      (k : ℕ) → k ≢ nic → get_or after.per_nic_completed k 0 ≡ get_or before.per_nic_completed k 0
  pub on_qp :
      get_or (get_or after.per_nic_qp_completed nic []) qp 0
      ≡ add64 (get_or (get_or before.per_nic_qp_completed nic []) qp 0) 1
  pub other_qps :
      (k l : ℕ)
      → (k ≢ nic) ⊎ (l ≢ qp)
      → get_or (get_or after.per_nic_qp_completed k []) l 0
        ≡ get_or (get_or before.per_nic_qp_completed k []) l 0
  pub same_code : after.error_code ≡ before.error_code
  pub same_flag : after.finished ≡ before.finished

-- A NIC and a queue pair in the range of the setup, for which a transfer has counters.
pub record InRange (setup : WorkerSetup) (nic qp : ℕ) (ctx : Progress) : Type 0 where
  pub nic_used : nic < setup.num_nics
  pub qp_used : qp < setup.qps_per_connection
  pub nic_counted : nic < length ctx.per_nic_completed
  pub row_counted : nic < length ctx.per_nic_qp_completed
  pub qp_counted : qp < length (get_or ctx.per_nic_qp_completed nic [])

route-CountedOn :
    (setup : WorkerSetup) (nic qp : ℕ) (ctx : Progress)
    → InRange setup nic qp ctx
    → CountedOn nic qp ctx (route setup nic qp ctx)
unfolding route
route-CountedOn setup nic qp ctx r =
    let nic_ok : ltb nic setup.num_nics ≡ true = lt→ltb _ _ r.nic_used in
    let qp_ok : ltb qp setup.qps_per_connection ≡ true = lt→ltb _ _ r.qp_used in
    rw (route, nic_ok, qp_ok)
      record {
        total = refl;
        on_nic = get_or-bump_self ctx.per_nic_completed nic r.nic_counted;
        other_nics = λ k ne. get_or-bump_other ctx.per_nic_completed nic k ne;
        on_qp = get_or-bump_2_self ctx.per_nic_qp_completed nic qp r.row_counted r.qp_counted;
        other_qps = λ k l ne. get_or-bump_2_other ctx.per_nic_qp_completed nic qp k l ne;
        same_code = refl;
        same_flag = refl;
      }

-- A successful completion of a chunk that was posted under an encoded id is counted once on the
-- transfer that it was posted for, and there once on its NIC and on its queue pair and on no other,
-- whatever the chunk; neither the error code nor the flag changes, and no other transfer does.
pub complete-encode :
    (setup : WorkerSetup) (polled : ℕ) (s : WorkerState) (ctx : Progress) (nic qp h chunk : ℕ)
    → nic < 2 ^ 8
    → qp < 2 ^ 8
    → h < 2 ^ 16
    → InRange setup nic qp ctx
    → s.transfers h ≡ some ctx
    → let wc : WorkCompletion = record { wr_id = encode nic qp h chunk; ok = true } in
      let s' = complete setup polled wc s in
      (ctx' : Progress) × (s'.transfers h ≡ some ctx')
      × CountedOn nic qp ctx ctx'
      × ((k : ℕ) → k ≢ h → s'.transfers k ≡ s.transfers k)
unfolding put_progress advance
complete-encode setup polled s ctx nic qp h chunk n q l r e =
    let wc : WorkCompletion = record { wr_id = encode nic qp h chunk; ok = true } in
    let (dn, dq, dh, dc, small) = decode-encode nic qp h chunk in
    let nic_back : decode_nic (encode nic qp h chunk) ≡ nic = omega (arith, dn, n) in
    let qp_back : decode_qp (encode nic qp h chunk) ≡ qp = omega (arith, dq, q) in
    let back : decode_handle (encode nic qp h chunk) ≡ h = omega (arith, dh, l) in
    (
      route setup nic qp ctx,
      ap (λ (f : ℕ → Option Progress). f h)
            (complete-hit setup polled wc s ctx (ap s.transfers back ∙ e))
          ∙ rw (put_progress, advance, nic_back, qp_back, back) (ground arith),
      route-CountedOn setup nic qp ctx r,
      λ k ne. complete-other setup polled k wc s (λ same. ne (sym same ∙ back)),
    )
