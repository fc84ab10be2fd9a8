-- ===== src/Pxn/ProxyBuffer/Invariant.antt =====
-- Blocks handed out lie inside the buffer and apart from one another, as long as no request is
-- larger than the buffer; a larger one is granted once the buffer is idle, and runs past its end.
use ucl_mpcomm.Common.{
  ltb, leb, leb→le, ltb→ge, leb→gt, Bool-cases, word, add64, ℕ, ◌+◌, ◌*◌, ◌/◌, ◌^◌, ◌≤◌, ◌<◌, ◌≡◌,
  refl, ap, ◌≢◌, ◌⊎◌, inl, inr, List, [], ◌∷◌, ◌++◌, arith,
}
use ucl_mpcomm.Common.Bits.{bit_and_align}
use ucl_mpcomm.Pxn.ProxyBuffer.{ProxyBuffer, align_256, try_alloc, free, reset_allocator}

-- Rounding up to a multiple of 256.
pub align_256_lem : (len : ℕ) → len + 255 < word → align_256 len ≡ (len + 255) / 256 * 256
unfolding align_256
align_256_lem len h = omega (arith, bit_and_align (add64 len 255) (omega arith))

-- A block that a client holds, by its place in the buffer and its requested length.
pub record Block : Type 0 where
  pub offset : ℕ
  pub len : ℕ

-- The blocks that are held, newest first: each ends before the next newer one begins, is not
-- empty, and its length did not wrap when it was rounded up.
abbrev pub Apart : ℕ → List Block → Type 0
Apart limit [] = Unit {0}
Apart limit (b ∷ bs) =
    (b.offset + align_256 b.len ≤ limit)
    × (0 < b.len)
    × (b.len ≤ align_256 b.len)
    × Apart b.offset bs

abbrev pub total : List Block → ℕ
total [] = 0
total (b ∷ bs) = align_256 b.len + total bs

-- The two counters differ by what is held, and blocks stay below the allocation offset.
pub record Inv (b : ProxyBuffer) (held : List Block) : Type 0 where
  pub counted : b.free_offset + total held ≡ b.alloc_offset
  pub inside : b.alloc_offset ≤ b.size
  pub small : b.buffer + b.size < 2 ^ 63
  pub based : 0 < b.buffer
  pub apart : Apart b.alloc_offset held

Apart-mono : (m n : ℕ) (bs : List Block) → m ≤ n → Apart m bs → Apart n bs
Apart-mono m n [] h a = tt
Apart-mono m n (b ∷ bs) h a = (omega arith, a.1, a.2, a.3)

Apart-remove :
    (limit : ℕ) (newer : List Block) (b : Block) (older : List Block)
    → Apart limit (newer ++ (b ∷ older))
    → Apart limit (newer ++ older)
Apart-remove limit [] b older a = Apart-mono b.offset limit older (omega arith) a.3
Apart-remove limit (n ∷ newer) b older a = (a.0, a.1, a.2, Apart-remove n.offset newer b older a.3)

total-remove :
    (newer : List Block) (b : Block) (older : List Block)
    → total (newer ++ (b ∷ older)) ≡ align_256 b.len + total (newer ++ older)
total-remove [] b older = refl
total-remove (n ∷ newer) b older = omega (arith, total-remove newer b older)

-- Nothing is held once the counters meet.
none_held : (held : List Block) (limit : ℕ) → Apart limit held → total held ≡ 0 → held ≡ []
none_held [] limit a e = refl
none_held (b ∷ held) limit a e = absurd (omega arith)

-- What a successful request gets: a block inside the buffer, at the address returned, apart from
-- every block that is still held.
pub record Granted (b : ProxyBuffer) (len : ℕ) (held : List Block) (r : ℕ × ProxyBuffer)
    : Type 0 where
  pub block : Block
  pub requested : block.len ≡ len
  pub address : r.0 ≡ b.buffer + block.offset
  pub fits : block.offset + len ≤ b.size
  pub kept : Inv r.1 (block ∷ held)

-- A request that is not larger than the buffer is granted, or refused with no change; and it is
-- refused only while some block is held.
pub try_alloc-Granted :
    (len : ℕ) (b : ProxyBuffer) (held : List Block)
    → Inv b held
    → 0 < len
    → align_256 len ≤ b.size
    → len + 255 < word
    → Granted b len held (try_alloc len b) ⊎ ((try_alloc len b ≡ (0, b)) × (held ≢ []))
unfolding try_alloc
try_alloc-Granted len b held v p q r =
    elim (Bool-cases (ltb b.size (add64 b.alloc_offset (align_256 len)))) [
      | inr room ↦ rw room (
          inl (record {
            block = record { offset = b.alloc_offset; len = len };
            requested = refl;
            address = omega (arith, v.small, v.inside);
            fits = omega (arith, len-le, exact, v.inside, v.small, ltb→ge _ _ room);
            kept = record {
              counted = omega (arith, v.counted, exact);
              inside = omega (arith, exact, ltb→ge _ _ room);
              small = v.small;
              based = v.based;
              apart = (omega (arith, exact), p, len-le, v.apart);
            };
          }))
      | inl past ↦ elim (Bool-cases (leb b.alloc_offset b.free_offset)) [
        | inr busy ↦
            rw (past, busy) (inr (refl, λ e. omega (arith, v.counted, leb→gt _ _ busy, ap total e)))
        | inl idle ↦
            rw (past, idle)
              (inl (record {
                block = record { offset = 0; len = len };
                requested = refl;
                address = omega arith;
                fits = omega (arith, len-le);
                kept =
                    rw
                      (none_held held b.alloc_offset v.apart
                        (omega (arith, v.counted, leb→le _ _ idle)))
                      (record {
                        counted = omega arith;
                        inside = q;
                        small = v.small;
                        based = v.based;
                        apart = (omega arith, p, len-le, tt);
                      });
              }))
      ]
    ]
  where
    len-le : len ≤ align_256 len
    len-le = omega (arith, align_256_lem len r)

    exact : add64 b.alloc_offset (align_256 len) ≡ b.alloc_offset + align_256 len
    exact = omega (arith, v.inside, v.small)

-- Freeing any block that is held, the newest included, keeps the invariant for the others.
pub free-Inv :
    (b : ProxyBuffer) (newer : List Block) (block : Block) (older : List Block)
    → Inv b (newer ++ (block ∷ older))
    → Inv (free block.len b) (newer ++ older)
unfolding free
free-Inv b newer block older v = record {
  counted = omega (arith, v.counted, v.inside, v.small, total-remove newer block older);
  inside = v.inside;
  small = v.small;
  based = v.based;
  apart = Apart-remove b.alloc_offset newer block older v.apart;
}

-- A request larger than the whole buffer is granted whenever nothing is held: the address returned
-- is the buffer's, and the block runs past the buffer's end.
pub try_alloc_oversize :
    (len : ℕ) (b : ProxyBuffer)
    → Inv b []
    → b.size < len
    → len < 2 ^ 63
    → ((try_alloc len b).0 ≡ b.buffer) × (b.buffer + b.size < (try_alloc len b).0 + len)
unfolding try_alloc
try_alloc_oversize len b v p q =
    ground (arith, v.counted, v.inside, v.small, align_256_lem len (omega arith))

-- A reset while blocks are held breaks the promise: the next request is granted the front of the
-- buffer, so it overlaps any block that is still held there.
pub reset_overlaps :
    (len : ℕ) (b : ProxyBuffer) (newer : List Block) (first : Block)
    → Inv b (newer ++ (first ∷ []))
    → first.offset ≡ 0
    → len + 255 < word
    → align_256 len ≤ b.size
    → (try_alloc len (reset_allocator b)).0 ≡ b.buffer + first.offset
unfolding try_alloc reset_allocator
reset_overlaps len b newer first v e p q = ground (arith, v.small)
