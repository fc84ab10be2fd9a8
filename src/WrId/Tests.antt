-- ===== src/WrId/Tests.antt =====
-- Runs of `WrIdEncoding`, and its theorems at an id.
use ucl_mpcomm.Common.{◌%◌, ◌^◌, ◌<◌, ◌≡◌, refl}
use ucl_mpcomm.WrId.{encode, decode_nic, decode_qp, decode_handle, decode_chunk}
use ucl_mpcomm.WrId.Laws.{decode-encode}

encode_runs : encode 3 1 0x1234 7 ≡ 0x0301_1234_0000_0007
unfolding encode
encode_runs = refl

decode-encode_example :
    (decode_nic (encode 3 1 65535 7) ≡ 3 % 2 ^ 8)
    × (decode_qp (encode 3 1 65535 7) ≡ 1 % 2 ^ 8)
    × (decode_handle (encode 3 1 65535 7) ≡ 65535 % 2 ^ 16)
    × (decode_chunk (encode 3 1 65535 7) ≡ 7 % 2 ^ 32)
    × (encode 3 1 65535 7 < 2 ^ 64)
decode-encode_example = decode-encode 3 1 65535 7
