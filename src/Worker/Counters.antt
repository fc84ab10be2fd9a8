-- ===== src/Worker/Counters.antt =====
-- The counters per NIC and per queue pair, after one of them is increased.
use ucl_mpcomm.Common.{
  length, get_or, add64, ℕ, zero, suc, ◌<◌, ◌≡◌, refl, sym, ap, ◌≢◌, ◌⊎◌, inl, inr, List, [], ◌∷◌,
  arith,
}
use ucl_mpcomm.Worker.{bump, bump_2}

pub get_or-bump :
    (cs : List ℕ) (i j : ℕ)
    → let old = get_or cs j 0 in
      let new = get_or (bump cs i) j 0 in (new ≡ old) ⊎ ((i ≡ j) × (new ≡ add64 old 1))
unfolding bump
get_or-bump [] i j = inl refl
get_or-bump (c ∷ cs) zero zero = inr (refl, refl)
get_or-bump (c ∷ cs) zero (suc j) = inl refl
get_or-bump (c ∷ cs) (suc i) zero = inl refl
get_or-bump (c ∷ cs) (suc i) (suc j) = elim (get_or-bump cs i j) [
  | inl same ↦ inl same
  | inr (ei, e) ↦ inr (ap suc ei, e)
]

pub get_or-bump_2 :
    (rows : List (List ℕ)) (i j k l : ℕ)
    → let old = get_or (get_or rows k []) l 0 in
      let new = get_or (get_or (bump_2 rows i j) k []) l 0 in
      (new ≡ old) ⊎ ((i ≡ k) × (j ≡ l) × (new ≡ add64 old 1))
unfolding bump_2
get_or-bump_2 [] i j k l = inl refl
get_or-bump_2 (row ∷ rows) zero j zero l = elim (get_or-bump row j l) [
  | inl same ↦ inl same
  | inr (ej, e) ↦ inr (refl, ej, e)
]
get_or-bump_2 (row ∷ rows) zero j (suc k) l = inl refl
get_or-bump_2 (row ∷ rows) (suc i) j zero l = inl refl
get_or-bump_2 (row ∷ rows) (suc i) j (suc k) l = elim (get_or-bump_2 rows i j k l) [
  | inl same ↦ inl same
  | inr (ei, ej, e) ↦ inr (ap suc ei, ej, e)
]

pub get_or-bump_self :
    (cs : List ℕ) (i : ℕ) → i < length cs → get_or (bump cs i) i 0 ≡ add64 (get_or cs i 0) 1
unfolding bump
get_or-bump_self [] i h = absurd (omega arith)
get_or-bump_self (c ∷ cs) zero h = refl
get_or-bump_self (c ∷ cs) (suc i) h = get_or-bump_self cs i (omega arith)

pub get_or-bump_2_self :
    (rows : List (List ℕ)) (i j : ℕ)
    → i < length rows
    → j < length (get_or rows i [])
    → get_or (get_or (bump_2 rows i j) i []) j 0 ≡ add64 (get_or (get_or rows i []) j 0) 1
unfolding bump_2
get_or-bump_2_self [] i j h k = absurd (omega (arith, h))
get_or-bump_2_self (row ∷ rows) zero j h k = get_or-bump_self row j k
get_or-bump_2_self (row ∷ rows) (suc i) j h k = get_or-bump_2_self rows i j (omega (arith, h)) k

pub get_or-bump_other : (cs : List ℕ) (i j : ℕ) → j ≢ i → get_or (bump cs i) j 0 ≡ get_or cs j 0
get_or-bump_other cs i j ne = elim (get_or-bump cs i j) [
  | inl same ↦ same
  | inr (at, e) ↦ absurd (ne (sym at))
]

pub get_or-bump_2_other :
    (rows : List (List ℕ)) (i j k l : ℕ)
    → (k ≢ i) ⊎ (l ≢ j)
    → get_or (get_or (bump_2 rows i j) k []) l 0 ≡ get_or (get_or rows k []) l 0
get_or-bump_2_other rows i j k l differs = elim (get_or-bump_2 rows i j k l) [
  | inl same ↦ same
  | inr (at, at_2, e) ↦ elim differs [
    | inl ne ↦ absurd (ne (sym at))
    | inr ne ↦ absurd (ne (sym at_2))
  ]
]

pub length-bump : (cs : List ℕ) (i : ℕ) → length (bump cs i) ≡ length cs
unfolding bump
length-bump [] i = refl
length-bump (c ∷ cs) zero = refl
length-bump (c ∷ cs) (suc i) = ap suc (length-bump cs i)

pub length-bump_2 : (rows : List (List ℕ)) (i j : ℕ) → length (bump_2 rows i j) ≡ length rows
unfolding bump_2
length-bump_2 [] i j = refl
length-bump_2 (row ∷ rows) zero j = refl
length-bump_2 (row ∷ rows) (suc i) j = ap suc (length-bump_2 rows i j)

pub length-bump_2_row :
    (rows : List (List ℕ)) (i j k : ℕ)
    → length (get_or (bump_2 rows i j) k []) ≡ length (get_or rows k [])
unfolding bump_2
length-bump_2_row [] i j k = refl
length-bump_2_row (row ∷ rows) zero j zero = length-bump row j
length-bump_2_row (row ∷ rows) zero j (suc k) = refl
length-bump_2_row (row ∷ rows) (suc i) j zero = refl
length-bump_2_row (row ∷ rows) (suc i) j (suc k) = length-bump_2_row rows i j k
