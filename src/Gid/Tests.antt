-- ===== src/Gid/Tests.antt =====
-- The GID fe80::1 as bytes.
use ucl_mpcomm.Common.{length, All, ℕ, ◌<◌, ◌≡◌, some, List, [], ◌∷◌, arith}
use ucl_mpcomm.Gid.{gid_to_string, string_to_gid}
use ucl_mpcomm.Gid.Laws.{string_to_gid-gid_to_string}

abbrev gid : List ℕ
gid = 0xfe ∷ 0x80 ∷ 0 ∷ 0 ∷ 0 ∷ 0 ∷ 0 ∷ 0 ∷ 0 ∷ 0 ∷ 0 ∷ 0 ∷ 0 ∷ 0 ∷ 0 ∷ 1 ∷ []

are_bytes : All (λ b. b < 256) gid
are_bytes = ground arith

string_to_gid-gid_to_string_example :
    (string_to_gid (gid_to_string gid) ≡ some gid) × (length (gid_to_string gid) ≡ 47)
string_to_gid-gid_to_string_example = string_to_gid-gid_to_string gid (omega arith) are_bytes
