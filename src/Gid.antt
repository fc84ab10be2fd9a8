-- ===== src/Gid.antt =====
-- GIDs as strings, in src/mpcomm.cpp: `gidToString`, `stringToGid` and `isNullGid`. A GID is the
-- list of its 16 bytes, a string the list of its character codes.
pub mod Laws
mod Tests
use ucl_mpcomm.Common.{
  ltb, leb, ◌==◌, if◌then◌else◌, ℕ, zero, suc, ◌+◌, ◌-◌, ◌*◌, ◌/◌, ◌%◌, Bool, true, ◌&&◌, Option,
  none, some, List, [], ◌∷◌, ◌++◌,
}

abbrev pub colon : ℕ
colon = 58

unfoldable pub hex_digit : ℕ → ℕ
hex_digit n = if ltb n 10 then 48 + n else 87 + n

-- "%02x" of a byte.
unfoldable pub print_byte : ℕ → List ℕ
unfolding hex_digit
print_byte b = hex_digit (b / 16) ∷ hex_digit (b % 16) ∷ []

unfoldable pub print_bytes : List ℕ → List ℕ
unfolding print_byte
print_bytes [] = []
print_bytes (b ∷ []) = print_byte b
print_bytes (b ∷ (b' ∷ bs)) = print_byte b ++ (colon ∷ print_bytes (b' ∷ bs))

abbrev pub gid_to_string : List ℕ → List ℕ
gid_to_string gid = print_bytes gid

unfoldable pub digit_value : ℕ → Option ℕ
digit_value c =
    if leb 48 c && leb c 57
    then some (c - 48)
    else if leb 97 c && leb c 102
    then some (c - 87)
    else if leb 65 c && leb c 70
    then some (c - 55)
    else none

-- A second digit, if there is one.
unfoldable pub scan_second : ℕ → List ℕ → ℕ × List ℕ
unfolding digit_value
scan_second v [] = (v, [])
scan_second v (c ∷ cs) = elim (digit_value c) [ none ↦ (v, c ∷ cs) | some w ↦ (v * 16 + w, cs) ]

-- "%02x" of sscanf on a string without white space and prefix: one digit or two.
unfoldable pub scan_byte : List ℕ → Option (ℕ × List ℕ)
unfolding digit_value scan_second
scan_byte [] = none
scan_byte (c ∷ cs) = elim (digit_value c) [ none ↦ none | some v ↦ some (scan_second v cs) ]

-- The colon that the format wants between two bytes.
unfoldable pub scan_colon : List ℕ → Option (List ℕ)
scan_colon [] = none
scan_colon (c ∷ cs) = if c == colon then some cs else none

unfoldable pub cons_to : ℕ → Option (List ℕ) → Option (List ℕ)
cons_to v none = none
cons_to v (some vs) = some (v ∷ vs)

-- So many bytes more after a first one.
unfoldable pub scan_more : ℕ → List ℕ → Option (List ℕ)
unfolding scan_byte scan_colon cons_to
scan_more zero cs = some []
scan_more (suc n) cs = elim (scan_colon cs) [
  | none ↦ none
  | some rest ↦ elim (scan_byte rest) [
    | none ↦ none
    | some (v, rest') ↦ cons_to v (scan_more n rest')
  ]
]

-- `none` where sscanf stops early and values are used that it did not set.
unfoldable pub string_to_gid : List ℕ → Option (List ℕ)
unfolding scan_byte scan_more cons_to
string_to_gid str = elim (scan_byte str) [
  | none ↦ none
  | some (v, rest) ↦ cons_to v (scan_more 15 rest)
]

unfoldable pub is_null_gid : List ℕ → Bool
is_null_gid [] = true
is_null_gid (b ∷ bs) = (b == 0) && is_null_gid bs
