-- ===== src/Gid/Laws.antt =====
-- A GID that is printed fits its buffer and is read back.
use ucl_mpcomm.Common.{
  length, All, ℕ, ◌+◌, ◌*◌, ◌/◌, ◌%◌, ◌<◌, ◌≡◌, refl, sym, ap, ◌∙◌, some, List, [], ◌∷◌, ◌++◌,
  arith,
}
use ucl_mpcomm.Gid.{
  colon, hex_digit, print_byte, print_bytes, gid_to_string, digit_value, scan_second, scan_byte,
  scan_colon, cons_to, scan_more, string_to_gid,
}

digit_value-hex_digit : (n : ℕ) → n < 16 → digit_value (hex_digit n) ≡ some n
unfolding digit_value hex_digit
digit_value-hex_digit n h = ground (arith, h)

scan_byte-print_byte :
    (b : ℕ) (rest : List ℕ) → b < 256 → scan_byte (print_byte b ++ rest) ≡ some (b, rest)
unfolding scan_byte scan_second print_byte
scan_byte-print_byte b rest h =
    rw
      (
        digit_value-hex_digit (b / 16) (omega (arith, h)),
        scan_byte,
        digit_value-hex_digit (b % 16) (omega arith),
        scan_second,
      )
      (ap (λ v. some (v, rest)) (omega arith))

abbrev Bytes : List ℕ → Type 0
Bytes bs = All (λ b. b < 256) bs

abbrev tail : List ℕ → List ℕ
tail [] = []
tail (b ∷ bs) = colon ∷ print_bytes (b ∷ bs)

print_bytes-tail : (b : ℕ) (bs : List ℕ) → print_bytes (b ∷ bs) ≡ print_byte b ++ tail bs
unfolding print_bytes print_byte
print_bytes-tail b [] = refl
print_bytes-tail b (c ∷ cs) = refl

scan_more-tail : (bs : List ℕ) → Bytes bs → scan_more (length bs) (tail bs) ≡ some bs
unfolding scan_more scan_colon cons_to
scan_more-tail [] all = refl
scan_more-tail (b ∷ bs) (small, all) =
    rw
      (
        print_bytes-tail b bs,
        scan_byte-print_byte b (tail bs) small,
        scan_more,
        scan_more-tail bs all,
        cons_to,
      )
      refl

length-tail : (b : ℕ) (bs : List ℕ) → length (print_byte b ++ tail bs) ≡ 2 + 3 * length bs
unfolding print_byte
length-tail b [] = refl
length-tail b (c ∷ cs) = omega (arith, ap length (print_bytes-tail c cs), length-tail c cs)

-- Any 16 bytes that are printed as a GID take 47 characters, which with the end mark fit the 64 of
-- an endpoint, and are read back.
pub string_to_gid-gid_to_string :
    (gid : List ℕ)
    → length gid ≡ 16
    → All (λ b. b < 256) gid
    → (string_to_gid (gid_to_string gid) ≡ some gid) × (length (gid_to_string gid) ≡ 47)
unfolding string_to_gid cons_to
string_to_gid-gid_to_string [] full all = absurd (omega (arith, full))
string_to_gid-gid_to_string (b ∷ bs) full (small, all) =
    let rest : length bs ≡ 15 = omega (arith, full) in
    (
      rw (print_bytes-tail b bs, scan_byte-print_byte b (tail bs) small, string_to_gid)
          (ap (cons_to b) (ap (λ n. scan_more n (tail bs)) (sym rest) ∙ scan_more-tail bs all)),
      ap length (print_bytes-tail b bs) ∙ omega (arith, length-tail b bs, rest),
    )
