-- ===== src/Worker/Posting/Pick.antt =====
-- The two selection loops choose a usable candidate with the least load, if there is one.
use ucl_mpcomm.Common.{
  ltb, Bool-cases, word, ℕ, ◌-◌, ◌≤◌, ◌<◌, ◌≡◌, refl, subst, ◌≢◌, ◌⊎◌, inl, inr, Bool, true, ◌&&◌,
  Option, none, some, List, [], ◌∷◌, arith,
}
use ucl_mpcomm.Nics.Laws.{mem}
use ucl_mpcomm.Worker.Posting.{pick_from, pick}

module _ (usable : ℕ → Bool) (load : ℕ → ℕ) where
  pub record IsLeast (is : List ℕ) (i : ℕ) : Type 0 where
    pub candidate : mem i is ≡ true
    pub fit : usable i ≡ true
    pub least : (j : ℕ) → mem j is ≡ true → usable j ≡ true → load i ≤ load j

  -- No usable candidate is below a bound.
  abbrev pub NoneBelow : List ℕ → ℕ → Type 0
  NoneBelow is bound = (j : ℕ) → mem j is ≡ true → usable j ≡ true → bound ≤ load j

  abbrev Chosen : List ℕ → ℕ → Option ℕ → Option ℕ → Type 0
  Chosen is bound best r =
      ((r ≡ best) × NoneBelow is bound) ⊎ ((i : ℕ) × (r ≡ some i) × (load i < bound) × IsLeast is i)

  pick_from-Chosen :
      (is : List ℕ) (bound : ℕ) (best : Option ℕ)
      → Chosen is bound best (pick_from usable load is bound best)
  unfolding pick_from
  pick_from-Chosen [] bound best = inl (refl, λ j m u. absurd (ground (arith, m)))
  pick_from-Chosen (i ∷ is) bound best = elim (Bool-cases (usable i && ltb (load i) bound)) [
    | inl e ↦
        rw (e, pick_from)
          elim (pick_from-Chosen is (load i) (some i)) [
            | inl (same, none_below) ↦ inr (
              i,
              same,
              ground (arith, e),
              record {
                candidate = ground arith;
                fit = ground (arith, e);
                least = λ j m u. ground (arith, m, u, none_below j);
              },
            )
            | inr (k, same, below, l) ↦ inr (
              k,
              same,
              ground (arith, e, below),
              record {
                candidate = ground (arith, l.candidate);
                fit = l.fit;
                least = λ j m u. ground (arith, m, u, below, l.least j);
              },
            )
          ]
    | inr e ↦
        rw (e, pick_from)
          elim (pick_from-Chosen is bound best) [
            | inl (same, none_below) ↦ inl (same, λ j m u. ground (arith, m, u, e, none_below j))
            | inr (k, same, below, l) ↦ inr (
              k,
              same,
              below,
              record {
                candidate = ground (arith, l.candidate);
                fit = l.fit;
                least = λ j m u. ground (arith, m, u, e, below, l.least j);
              },
            )
          ]
  ]

  pub pick-IsLeast : (is : List ℕ) (i : ℕ) → pick usable load is ≡ some i → IsLeast is i
  unfolding pick
  pick-IsLeast is i e = elim (pick_from-Chosen is (word - 1) none) [
    | inl (same, none_below) ↦ absurd (ground (arith, e, same))
    | inr (k, same, below, l) ↦ subst (IsLeast is) (ground (arith, e, same)) l
  ]

  pub pick-NoneBelow : (is : List ℕ) → pick usable load is ≡ none → NoneBelow is (word - 1)
  unfolding pick
  pick-NoneBelow is e = elim (pick_from-Chosen is (word - 1) none) [
    | inl (same, none_below) ↦ none_below
    | inr (k, same, below, l) ↦ absurd (ground (arith, e, same))
  ]

  -- A usable candidate whose load is below the largest word is enough for a choice.
  pub pick-chooses :
      (is : List ℕ) (j : ℕ)
      → mem j is ≡ true
      → usable j ≡ true
      → load j < word - 1
      → pick usable load is ≢ none
  unfolding pick
  pick-chooses is j m u small e = elim (pick_from-Chosen is (word - 1) none) [
    | inl (same, none_below) ↦ ground (arith, small, none_below j m u)
    | inr (k, same, below, l) ↦ ground (arith, e, same)
  ]
