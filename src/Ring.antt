-- ===== src/Ring.antt =====
-- Indices that go round at a fixed size, as the two queues of the program use them: a window of
-- consecutive slots, and the number of slots between two indices.
use ucl_mpcomm.Common.{
  ◌==◌, if◌then◌else◌, length, ℕ, zero, suc, ◌+◌, ◌-◌, ◌%◌, ◌≤◌, ◌<◌, ◌≡◌, refl, ap, ◌∙◌, ◌≢◌, ◌↔◌,
  ◌⊎◌, inl, inr, List, [], ◌∷◌, ◌++◌, arith, dec_lt,
}
use native.Mathlib.Numerals.{add-one}
use native.Mathlib.Nat.{mod-eq_of_lt, mod-eq-sub-mod}

module _ {ℓ} {A : Type ℓ} where
  -- A store into slot `i` of an array.
  abbrev pub update : (ℕ → A) → ℕ → A → ℕ → A
  update buf i a j = if i == j then a else buf j

  -- The `n` slots from `h` on.
  abbrev pub window : ℕ → (ℕ → A) → ℕ → ℕ → List A
  window m buf h zero = []
  window m buf h (suc n) = buf h ∷ window m buf ((h + 1) % m) n

  pub length-window : (m : ℕ) (buf : ℕ → A) (h n : ℕ) → length (window m buf h n) ≡ n
  length-window m buf h zero = refl
  length-window m buf h (suc n) = ap suc (length-window m buf ((h + 1) % m) n)

-- The number of slots from `h` up to `t`.
abbrev pub span : ℕ → ℕ → ℕ → ℕ
span m h t = (t + m - h) % m

module _ (m : ℕ) where
  pub next_cases :
      (t : ℕ) → t < m → (((t + 1) % m ≡ t + 1) × (t + 1 < m)) ⊎ (((t + 1) % m ≡ 0) × (t + 1 ≡ m))
  next_cases t h = elim (dec_lt (t + 1) m) [
    | yes p ↦ inl (mod-eq_of_lt p, p)
    | no p ↦ inr (omega (arith, mod-eq-sub-mod {n = t + 1} {m = m} (omega arith)), omega arith)
  ]

  pub span_cases :
      (h t : ℕ)
      → h < m
      → t < m
      → ((h ≤ t) × (span m h t ≡ t - h)) ⊎ ((t < h) × (span m h t ≡ t + m - h))
  span_cases h t p q = elim (dec_lt t h) [
    | yes lt ↦ inr (lt, mod-eq_of_lt (omega arith))
    | no ge ↦ inl (
      omega arith,
      mod-eq-sub-mod {n = t + m - h} {m = m} (omega arith)
          ∙ (ap (λ (x : ℕ). x % m) {y = t - h} (omega arith) ∙ mod-eq_of_lt (omega arith)),
    )
  ]

  -- Different slots have different successors.
  pub next-ne : (h t : ℕ) → h < m → t < m → h ≢ t → (h + 1) % m ≢ (t + 1) % m
  next-ne h t p q ne e = ne (omega (arith, next_cases h p, next_cases t q))

  pub span-lt : (h t : ℕ) → h < m → t < m → span m h t < m
  span-lt h t p q = omega (arith, span_cases h t p q)

  pub span-eq-zero : (h t : ℕ) → h < m → t < m → (span m h t ≡ 0) ↔ (h ≡ t)
  span-eq-zero h t p q =
      (λ e. omega (arith, span_cases h t p q), λ e. omega (arith, span_cases h t p q))

  pub span-full : (h t : ℕ) → h < m → t < m → ((t + 1) % m ≡ h) ↔ (span m h t + 1 ≡ m)
  span-full h t p q = (
    λ e. omega (arith, span_cases h t p q, next_cases t q),
    λ e. omega (arith, span_cases h t p q, next_cases t q),
  )

  -- The end moves on by a slot, where that does not make the window empty.
  pub span-push :
      (h t : ℕ) → h < m → t < m → (t + 1) % m ≢ h → span m h ((t + 1) % m) ≡ span m h t + 1
  span-push h t p q ne = omega (
    arith,
    span_cases h t p q,
    next_cases t q,
    span_cases h ((t + 1) % m) p (omega (arith, next_cases t q)),
  )

  -- The start moves on by a slot.
  pub span-pop : (h t : ℕ) → h < m → t < m → h ≢ t → span m h t ≡ suc (span m ((h + 1) % m) t)
  span-pop h t p q ne = omega (
    arith,
    span_cases h t p q,
    next_cases h p,
    span_cases ((h + 1) % m) t (omega (arith, next_cases h p)) q,
  )

module _ {ℓ} {A : Type ℓ} (m : ℕ) (buf : ℕ → A) where
  -- A store at the slot `t` leaves the window of `n` slots from `h` alone if `t` is at least `n` away.
  pub window-update :
      (n h t : ℕ) (a : A)
      → h < m
      → t < m
      → n ≤ span m h t
      → window m (update buf t a) h n ≡ window m buf h n
  window-update zero h t a p q far = refl
  window-update (suc n) h t a p q far =
      let ne : h ≢ t = λ e. omega (arith, (span-eq-zero m h t p q).1 e) in
      ground (
        arith,
        window-update n ((h + 1) % m) t a (omega (arith, next_cases m h p)) q
            (omega (arith, span-pop m h t p q ne)),
      )

  -- A window is extended by the slot just behind it.
  pub window-snoc :
      (n h t : ℕ)
      → h < m
      → t < m
      → span m h t ≡ n
      → window m buf h (suc n) ≡ window m buf h n ++ (buf t ∷ [])
  window-snoc zero h t p q e = ap (λ (i : ℕ). buf i ∷ []) ((span-eq-zero m h t p q).0 e)
  window-snoc (suc n) h t p q e =
      let ne : h ≢ t = λ d. omega (arith, (span-eq-zero m h t p q).1 d) in
      ap (λ l. buf h ∷ l)
        (window-snoc n ((h + 1) % m) t (omega (arith, next_cases m h p)) q
          (omega (arith, span-pop m h t p q ne)))

  -- The slots from `h` up to `t`.
  abbrev pub between : ℕ → ℕ → List A
  between h t = window m buf h (span m h t)

  pub between-pop :
      (h t : ℕ) → h < m → t < m → h ≢ t → between h t ≡ buf h ∷ between ((h + 1) % m) t
  between-pop h t p q ne = ap (window m buf h) (span-pop m h t p q ne)

  pub between-empty : (h t : ℕ) → h < m → t < m → h ≡ t → between h t ≡ []
  between-empty h t p q e = ap (window m buf h) ((span-eq-zero m h t p q).1 e)

  pub between-push :
      (h t : ℕ)
      → h < m
      → t < m
      → (t + 1) % m ≢ h
      → between h ((t + 1) % m) ≡ between h t ++ (buf t ∷ [])
  between-push h t p q ne =
      ap (window m buf h) (span-push m h t p q ne ∙ add-one (span m h t))
      ∙ window-snoc (span m h t) h t p q refl

module _ {ℓ} {A : Type ℓ} (m : ℕ) where
  -- A store into the slot at the end of the window does not show in it.
  pub between-update :
      (buf : ℕ → A) (h t : ℕ) (a : A)
      → h < m
      → t < m
      → between m (update buf t a) h t ≡ between m buf h t
  between-update buf h t a p q = window-update m buf (span m h t) h t a p q (omega arith)
