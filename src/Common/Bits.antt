-- ===== src/Common/Bits.antt =====
-- `|` of fields that do not overlap, `&` with a low mask and `& ~255`, as arithmetic.
use Prim.Native.Nat.{
  ℕ, zero, suc, ◌+◌, ◌-◌, ◌*◌, ◌/◌, ◌%◌, ◌^◌, ◌≤◌, ◌<◌, min, max, bit_and, bit_or, digits,
  bit_and-bitwise, bit_or-bitwise,
}
use mathlib.Core.Path.{◌≡◌, refl, ap, ◌∙◌}
use native.Mathlib.Nat.{
  two-pow-succ, one-le-pow, div-add-mod, mul-add-mod_self_right, mod-eq_of_lt, mod-lt,
  div-div-eq-div-mul,
}
use native.Mathlib.Omega.{arith}

-- `x << k` where no bit is lost, and `x >> k`.
infixl 60 ◌<<◌ ◌>>◌
abbrev pub ◌<<◌ : ℕ → ℕ → ℕ
x << k = x * 2 ^ k

abbrev pub ◌>>◌ : ℕ → ℕ → ℕ
x >> k = x / 2 ^ k

-- The native operations recur on digits with fuel: the fuel does not matter once there is enough.
module _ (rest : ℕ → ℕ) (digit : ℕ → ℕ → ℕ) where
  more_fuel : (n a b : ℕ) → a ≤ n → digits rest digit (suc n) a b ≡ digits rest digit n a b
  more_fuel zero zero b h = refl
  more_fuel zero (suc a) b h = absurd (omega arith)
  more_fuel (suc n) zero b h = refl
  more_fuel (suc n) (suc a) b h =
      ap (λ (t : ℕ). t * 2 + digit (suc a % 2) (b % 2))
        (more_fuel n (suc a / 2) (b / 2) (omega arith))

  enough_fuel : (d n a b : ℕ) → a ≤ n → digits rest digit (d + n) a b ≡ digits rest digit n a b
  enough_fuel zero n a b h = ap (λ (k : ℕ). digits rest digit k a b) (omega arith)
  enough_fuel (suc d) n a b h =
      ap (λ (k : ℕ). digits rest digit k a b) {y = suc (d + n)} (omega arith)
      ∙ (more_fuel (d + n) a b (omega arith) ∙ enough_fuel d n a b h)

  -- The fuel `suc a` where the native operation takes `a`, and `a` where it takes `a / 2`.
  half_fuel :
      (a b : ℕ) → digits rest digit a (suc a / 2) b ≡ digits rest digit (suc a / 2) (suc a / 2) b
  half_fuel a b =
      ap (λ (k : ℕ). digits rest digit k (suc a / 2) b) {y = a - suc a / 2 + suc a / 2}
        (omega arith)
      ∙ enough_fuel (a - suc a / 2) (suc a / 2) (suc a / 2) b (omega arith)

pub bit_or_low : (a b : ℕ) → bit_or a b ≡ bit_or (a / 2) (b / 2) * 2 + max (a % 2) (b % 2)
bit_or_low zero b = simp bit_or-bitwise (omega arith)
bit_or_low (suc a) b = omega (
  arith,
  bit_or-bitwise (suc a) b,
  bit_or-bitwise (suc a / 2) (b / 2),
  half_fuel (λ y. y) max a (b / 2),
)

pub bit_and_low : (a b : ℕ) → bit_and a b ≡ bit_and (a / 2) (b / 2) * 2 + min (a % 2) (b % 2)
bit_and_low zero b = simp bit_and-bitwise (omega arith)
bit_and_low (suc a) b = omega (
  arith,
  bit_and-bitwise (suc a) b,
  bit_and-bitwise (suc a / 2) (b / 2),
  half_fuel (λ y. 0) min a (b / 2),
)

-- Induction on a bound of the number, which halving lowers.
or_zero_below : (n a : ℕ) → a < n → bit_or a 0 ≡ a
or_zero_below zero a h = absurd (omega arith)
or_zero_below (suc n) zero h = refl
or_zero_below (suc n) (suc a) h =
    omega (arith, bit_or_low (suc a) 0, or_zero_below n (suc a / 2) (omega arith))

and_zero_below : (n a : ℕ) → a < n → bit_and a 0 ≡ 0
and_zero_below zero a h = absurd (omega arith)
and_zero_below (suc n) zero h = refl
and_zero_below (suc n) (suc a) h =
    omega (arith, bit_and_low (suc a) 0, and_zero_below n (suc a / 2) (omega arith))

double : (q k : ℕ) → q * 2 ^ suc k ≡ 2 * (q * 2 ^ k)
double q k = omega (arith, ap (λ (t : ℕ). q * t) (two-pow-succ k))

-- `(q << k) | r` is a sum where `r` has at most `k` bits.
pub bit_or-add : (k q r : ℕ) → r < 2 ^ k → bit_or (q << k) r ≡ q * 2 ^ k + r
bit_or-add zero q r h = ground (arith, or_zero_below (suc q) q)
bit_or-add (suc k) q r h = ground (
  arith,
  two-pow-succ k,
  double q k,
  bit_or_low (q * 2 ^ suc k) r,
  bit_or-add k q (r / 2) (omega (arith, two-pow-succ k)),
)

mod_double : (a m : ℕ) → 0 < m → a % (2 * m) ≡ a / 2 % m * 2 + a % 2
mod_double a m h =
    let q = a / 2 / m in
    let r = a / 2 % m * 2 + a % 2 in
    let split : a ≡ q * (2 * m) + r = omega (arith, div-add-mod (a / 2) m) in
    ap (λ (t : ℕ). t % (2 * m)) split
    ∙ (mul-add-mod_self_right q (2 * m) r ∙ mod-eq_of_lt (omega (arith, mod-lt (a / 2) h)))

-- `a & (2^k - 1)` keeps the low `k` bits.
pub bit_and_mask : (k a : ℕ) → bit_and a (2 ^ k - 1) ≡ a % 2 ^ k
bit_and_mask zero a = ground (arith, and_zero_below (suc a) a)
bit_and_mask (suc k) a = ground (
  arith,
  two-pow-succ k,
  one-le-pow k 2,
  bit_and_low a (2 ^ suc k - 1),
  bit_and_mask k (a / 2),
  mod_double a (2 ^ k),
)

-- `&` with a mask shifted up acts on the bits above.
pub bit_and_shifted : (k a m : ℕ) → bit_and a (m << k) ≡ bit_and (a >> k) m << k
bit_and_shifted zero a m =
    let all : a / 2 ^ 0 ≡ a = omega arith in
    let same : m * 2 ^ 0 ≡ m = omega arith in
    omega (arith, ap (λ (t : ℕ). bit_and t m) all, ap (λ (t : ℕ). bit_and a t) same)
bit_and_shifted (suc k) a m = ground (
  arith,
  bit_and_low a (m * 2 ^ suc k),
  double m k,
  bit_and_shifted k (a / 2) m,
  div_twice,
  double (bit_and (a / 2 ^ suc k) m) k,
)
  where
    div_twice : a / 2 / 2 ^ k ≡ a / 2 ^ suc k
    div_twice =
        div-div-eq-div-mul a 2 (2 ^ k) ∙ ap (λ (t : ℕ). a / t) (omega (arith, two-pow-succ k))

-- `x & ~255` on 64 bits rounds down to a multiple of 256.
pub bit_and_align : (a : ℕ) → a < 2 ^ 64 → bit_and a (2 ^ 64 - 256) ≡ a / 256 * 256
bit_and_align a h = omega (arith, bit_and_shifted 8 a (2 ^ 56 - 1), bit_and_mask 56 (a / 256))
