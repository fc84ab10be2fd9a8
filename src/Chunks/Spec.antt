-- ===== src/Chunks/Spec.antt =====
-- The intended layout, without machine words: where each host's chunks begin, and when nothing wraps.
use ucl_mpcomm.Common.{
  length, get_or, All, sum, word, ℕ, zero, suc, ◌+◌, ◌-◌, ◌/◌, ◌≤◌, ◌<◌, ◌≡◌, refl, ap, ◌≢◌, List,
  [], ◌∷◌, arith,
}
use ucl_mpcomm.Chunks.{TransferDirection, broadcast, scatter, gather}
use native.Mathlib.Nat.{div-lt_iff_lt-mul}

-- The chunks of a host's block: its length over the chunk size, rounded up.
abbrev pub chunks_of : ℕ → ℕ → ℕ
chunks_of max len = (len + max - 1) / max

abbrev pub chunks_before : ℕ → List ℕ → ℕ → ℕ
chunks_before max [] i = 0
chunks_before max (len ∷ lens) zero = 0
chunks_before max (len ∷ lens) (suc i) = chunks_of max len + chunks_before max lens i

abbrev pub bytes_before : List ℕ → ℕ → ℕ
bytes_before [] i = 0
bytes_before (len ∷ lens) zero = 0
bytes_before (len ∷ lens) (suc i) = len + bytes_before lens i

-- Where a host's block begins in the local buffer: all hosts share it in a broadcast.
abbrev pub local_start : TransferDirection → List ℕ → ℕ → ℕ
local_start broadcast lens i = 0
local_start _ lens i = bytes_before lens i

-- No length, and no sum of lengths, reaches 2^64.
pub record Fits (max : ℕ) (lens : List ℕ) : Type 0 where
  pub positive : 0 < max
  pub each : All (λ (len : ℕ). len + max ≤ word) lens
  pub bytes : sum lens < word

pub chunks_of-le : (max len : ℕ) → 0 < max → chunks_of max len ≤ len
chunks_of-le max len h =
    let below : chunks_of max len < suc len = (div-lt_iff_lt-mul h).1 (grind arith) in omega arith

pub bytes_before-length : (lens : List ℕ) → bytes_before lens (length lens) ≡ sum lens
bytes_before-length [] = refl
bytes_before-length (len ∷ lens) = ap (λ (t : ℕ). len + t) (bytes_before-length lens)

pub bytes_before-le :
    (lens : List ℕ) (i : ℕ) → i < length lens → bytes_before lens i + get_or lens i 0 ≤ sum lens
bytes_before-le [] i h = absurd (omega arith)
bytes_before-le (len ∷ lens) zero h = omega arith
bytes_before-le (len ∷ lens) (suc i) h = omega (arith, bytes_before-le lens i)

pub bytes_before-suc :
    (lens : List ℕ) (i : ℕ)
    → i < length lens
    → bytes_before lens (suc i) ≡ bytes_before lens i + get_or lens i 0
bytes_before-suc [] i h = absurd (omega arith)
bytes_before-suc (len ∷ []) zero h = omega arith
bytes_before-suc (len ∷ m ∷ lens) zero h = omega arith
bytes_before-suc (len ∷ lens) (suc i) h = omega (arith, bytes_before-suc lens i (omega arith))

module _ (max : ℕ) where
  pub chunks_before-le-bytes :
      (lens : List ℕ) (i : ℕ) → 0 < max → chunks_before max lens i ≤ bytes_before lens i
  chunks_before-le-bytes [] i h = omega arith
  chunks_before-le-bytes (len ∷ lens) zero h = omega arith
  chunks_before-le-bytes (len ∷ lens) (suc i) h =
      omega (arith, chunks_before-le-bytes lens i h, chunks_of-le max len h)

  pub chunks_before-suc :
      (lens : List ℕ) (i : ℕ)
      → i < length lens
      → chunks_before max lens (suc i) ≡ chunks_before max lens i + chunks_of max (get_or lens i 0)
  chunks_before-suc [] i h = absurd (omega arith)
  chunks_before-suc (len ∷ []) zero h = omega arith
  chunks_before-suc (len ∷ m ∷ lens) zero h = omega arith
  chunks_before-suc (len ∷ lens) (suc i) h = omega (arith, chunks_before-suc lens i (omega arith))

  pub chunks_before_mono :
      (lens : List ℕ) (i j : ℕ) → i ≤ j → chunks_before max lens i ≤ chunks_before max lens j
  chunks_before_mono [] i j h = omega arith
  chunks_before_mono (len ∷ lens) zero j h = omega arith
  chunks_before_mono (len ∷ lens) (suc i) zero h = absurd (omega arith)
  chunks_before_mono (len ∷ lens) (suc i) (suc j) h = omega (arith, chunks_before_mono lens i j)

pub chunks_before-zero : (max : ℕ) (lens : List ℕ) → chunks_before max lens 0 ≡ 0
chunks_before-zero max [] = refl
chunks_before-zero max (len ∷ lens) = refl

pub bytes_before-zero : (lens : List ℕ) → bytes_before lens 0 ≡ 0
bytes_before-zero [] = refl
bytes_before-zero (len ∷ lens) = refl

pub local_start-eq :
    (dir : TransferDirection) (lens : List ℕ) (i : ℕ)
    → dir ≢ broadcast
    → local_start dir lens i ≡ bytes_before lens i
local_start-eq scatter lens i h = refl
local_start-eq gather lens i h = refl
local_start-eq broadcast lens i h = absurd (h refl)

-- The caller's buffer as far as a host may use it: in a broadcast all hosts share it.
abbrev pub local_size : TransferDirection → List ℕ → ℕ → ℕ
local_size broadcast lens i = get_or lens i 0
local_size _ lens i = sum lens

pub block_inside :
    (dir : TransferDirection) (lens : List ℕ) (i : ℕ)
    → i < length lens
    → local_start dir lens i + get_or lens i 0 ≤ local_size dir lens i
block_inside scatter lens i h = bytes_before-le lens i h
block_inside gather lens i h = bytes_before-le lens i h
block_inside broadcast lens i h = omega arith
