-- ===== src/WrId/Laws.antt =====
-- The four fields of a work-request id do not disturb one another, and no 64-bit id is lost.
use ucl_mpcomm.Common.{ℕ, ◌+◌, ◌*◌, ◌/◌, ◌%◌, ◌^◌, ◌<◌, ◌≡◌, arith}
use ucl_mpcomm.Common.Bits.{bit_or-add, bit_and_mask}
use ucl_mpcomm.WrId.{encode, decode_nic, decode_qp, decode_handle, decode_chunk}

abbrev fields : ℕ → ℕ → ℕ → ℕ → ℕ
fields n q h c = ((n % 256 * 256 + q % 256) * 65536 + h % 65536) * 4294967296 + c % 4294967296

-- `encode` is the sum of the four fields at their places.
encode-fields : (n q h c : ℕ) → encode n q h c ≡ fields n q h c
unfolding encode
encode-fields n q h c = ground (
  arith,
  bit_and_mask 8 n,
  bit_and_mask 8 q,
  bit_and_mask 16 h,
  bit_and_mask 32 c,
  bit_or-add 56 (n % 256) (q % 256 * 2 ^ 48) (omega arith),
  bit_or-add 48 (n % 256 * 256 + q % 256) (h % 65536 * 2 ^ 32) (omega arith),
  bit_or-add 32 ((n % 256 * 256 + q % 256) * 65536 + h % 65536) (c % 4294967296) (omega arith),
)

-- Each decoder returns its own field of an encoded id, cut to its width (8, 8, 16 and 32 bits),
-- whatever the other three fields are; and the id fits 64 bits.
pub decode-encode :
    (n q h c : ℕ)
    → (decode_nic (encode n q h c) ≡ n % 2 ^ 8)
      × (decode_qp (encode n q h c) ≡ q % 2 ^ 8)
      × (decode_handle (encode n q h c) ≡ h % 2 ^ 16)
      × (decode_chunk (encode n q h c) ≡ c % 2 ^ 32)
      × (encode n q h c < 2 ^ 64)
unfolding decode_nic decode_qp decode_handle decode_chunk
decode-encode n q h c =
    let w = fields n q h c in
    rw (encode-fields n q h c) (
      omega (arith, bit_and_mask 8 (w / 2 ^ 56)),
      omega (arith, bit_and_mask 8 (w / 2 ^ 48)),
      omega (arith, bit_and_mask 16 (w / 2 ^ 32)),
      omega (arith, bit_and_mask 32 w),
      omega arith,
    )

-- Conversely every 64-bit id is the encoding of the fields that are decoded from it.
pub encode-decode :
    (w : ℕ)
    → w < 2 ^ 64
    → encode (decode_nic w) (decode_qp w) (decode_handle w) (decode_chunk w) ≡ w
unfolding decode_nic decode_qp decode_handle decode_chunk
encode-decode w h =
    rw
      (
        bit_and_mask 8 (w / 2 ^ 56),
        bit_and_mask 8 (w / 2 ^ 48),
        bit_and_mask 16 (w / 2 ^ 32),
        bit_and_mask 32 w,
        encode-fields,
      )
      (omega arith)
