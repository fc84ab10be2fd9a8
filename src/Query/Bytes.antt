-- ===== src/Query/Bytes.antt =====
-- Numbers as the bytes that the queries send, lowest first: the program is for x86.
use native.Mathlib.Numerals.{unary_clauses}
use ucl_mpcomm.Common.{
  ltb, if◌then◌else◌, Option-cases, length, ℤ, pos, negsuc, ℕ, zero, suc, ◌+◌, ◌-◌, ◌*◌, ◌/◌, ◌%◌,
  ◌^◌, ◌<◌, ◌≡◌, refl, ap, subst, inl, inr, Option, none, some, List, [], ◌∷◌, ◌++◌, arith,
}

-- An integer of `n` bytes in memory.
abbrev pub to_bytes : ℕ → ℕ → List ℕ
to_bytes zero v = []
to_bytes (suc n) v = (v % 256) ∷ to_bytes n (v / 256)

abbrev pub from_bytes : List ℕ → ℕ
from_bytes [] = 0
from_bytes (b ∷ bs) = b + 256 * from_bytes bs

-- `int32_t` as a 32-bit word.
abbrev pub to_int32 : ℤ → ℕ
to_int32 (pos n) = n % 2 ^ 32
to_int32 (negsuc n) = 2 ^ 32 - 1 - n % 2 ^ 32

abbrev pub from_int32 : ℕ → ℤ
from_int32 v = if ltb v (2 ^ 31) then pos v else negsuc (2 ^ 32 - 1 - v)

-- `recv` with `MSG_WAITALL`: exactly `n` bytes, `none` where the stream ends before.
abbrev pub recv : ℕ → List ℕ → Option (List ℕ × List ℕ)
recv zero bytes = some ([], bytes)
recv (suc n) [] = none
recv (suc n) (b ∷ bytes) = elim (recv n bytes) [
  | none ↦ none
  | some (bs, rest) ↦ some (b ∷ bs, rest)
]

abbrev pub recv_number : ℕ → List ℕ → Option (ℕ × List ℕ)
recv_number n bytes = elim (recv n bytes) [
  | none ↦ none
  | some (bs, rest) ↦ some (from_bytes bs, rest)
]

pub length-to_bytes : (n v : ℕ) → length (to_bytes n v) ≡ n
length-to_bytes zero v = refl
length-to_bytes (suc n) v = ap suc (length-to_bytes n (v / 256))

pub from_bytes-to_bytes : (n v : ℕ) → v < 256 ^ n → from_bytes (to_bytes n v) ≡ v
from_bytes-to_bytes zero v h = omega (arith, simp unary_clauses at h)
from_bytes-to_bytes (suc n) v h =
    let small : v < 256 ^ n * 256 = simp unary_clauses at h in
    omega (arith, from_bytes-to_bytes n (v / 256) (omega (arith, small)))

pub recv-append : (xs ys : List ℕ) → recv (length xs) (xs ++ ys) ≡ some (xs, ys)
recv-append [] ys = refl
recv-append (x ∷ xs) ys = rw (recv-append xs ys) refl

pub recv_number-to_bytes :
    (n v : ℕ) (rest : List ℕ) → v < 256 ^ n → recv_number n (to_bytes n v ++ rest) ≡ some (v, rest)
recv_number-to_bytes n v rest h =
    rw
      (
        recv_number,
        subst (λ (k : ℕ). recv k (to_bytes n v ++ rest) ≡ some (to_bytes n v, rest))
            (length-to_bytes n v) (recv-append (to_bytes n v) rest),
      )
      (ap (λ (x : ℕ). some (x, rest)) (from_bytes-to_bytes n v h))

-- More bytes behind what a receiver leaves.
abbrev pub extend {ℓ} : {A : Type ℓ} → List ℕ → Option (A × List ℕ) → Option (A × List ℕ)
extend more none = none
extend more (some (a, rest)) = some (a, rest ++ more)

-- More bytes behind change nothing for a receiver that has enough.
pub recv-more :
    (n : ℕ) (bytes more bs rest : List ℕ)
    → recv n bytes ≡ some (bs, rest)
    → recv n (bytes ++ more) ≡ some (bs, rest ++ more)
recv-more zero bytes more bs rest e = ap (extend more) e
recv-more (suc n) [] more bs rest e = cc
recv-more (suc n) (b ∷ bytes) more bs rest e = elim (Option-cases (recv n bytes)) [
  | inl short ↦ absurd (cc (short, e))
  | inr ((cs, left), got) ↦ rw (recv-more n bytes more cs left got) (
      ap (extend more) (
        subst
          (λ (o : Option (List ℕ × List ℕ)).
            elim o as (λ o. Option (List ℕ × List ℕ)) [
              | none ↦ none
              | some (bs, rest) ↦ some (b ∷ bs, rest)
            ]
            ≡ some (bs, rest))
          got e))
]

abbrev pub Fits32 : ℤ → Type 0
Fits32 (pos n) = n < 2 ^ 31
Fits32 (negsuc n) = n < 2 ^ 31

pub from_int32-to_int32 : (a : ℤ) → Fits32 a → from_int32 (to_int32 a) ≡ a
from_int32-to_int32 (pos n) h = ground (arith, h)
from_int32-to_int32 (negsuc n) h = ground (arith, h)
