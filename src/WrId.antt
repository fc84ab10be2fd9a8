-- ===== src/WrId.antt =====
-- `WrIdEncoding` of src/mpcomm.cpp: the 64-bit work-request id that routes a completion.
pub mod Laws
mod Tests
use ucl_mpcomm.Common.{ℕ}
use ucl_mpcomm.Common.Bits.{◌<<◌, ◌>>◌}
use Prim.Native.Nat.{bit_and, bit_or}

abbrev pub nic_shift : ℕ
nic_shift = 56

abbrev pub qp_shift : ℕ
qp_shift = 48

abbrev pub handle_shift : ℕ
handle_shift = 32

abbrev pub chunk_mask : ℕ
chunk_mask = 0xFFFF_FFFF

abbrev pub handle_mask : ℕ
handle_mask = 0xFFFF

abbrev pub qp_mask : ℕ
qp_mask = 0xFF

abbrev pub nic_mask : ℕ
nic_mask = 0xFF

-- No shift loses a bit: each field is masked to its width first.
unfoldable pub encode : ℕ → ℕ → ℕ → ℕ → ℕ
encode nic_index qp_index handle chunk_index =
    bit_or
      (bit_or
        (bit_or (bit_and nic_index nic_mask << nic_shift) (bit_and qp_index qp_mask << qp_shift))
        (bit_and handle handle_mask << handle_shift))
      (bit_and chunk_index chunk_mask)

unfoldable pub decode_nic : ℕ → ℕ
decode_nic wr_id = bit_and (wr_id >> nic_shift) nic_mask

unfoldable pub decode_qp : ℕ → ℕ
decode_qp wr_id = bit_and (wr_id >> qp_shift) qp_mask

unfoldable pub decode_handle : ℕ → ℕ
decode_handle wr_id = bit_and (wr_id >> handle_shift) handle_mask

unfoldable pub decode_chunk : ℕ → ℕ
decode_chunk wr_id = bit_and wr_id chunk_mask
