-- ===== src/Pxn/ProxyBuffer.antt =====
-- `PxnProxyBuffer` of src/mpcomm_pxn.h: a bump allocator over a block of GPU memory, which starts
-- again at the front once everything handed out has been freed.
pub mod Invariant
mod Tests
use ucl_mpcomm.Common.{ltb, leb, if◌then◌else◌, add64, ℕ, ◌-◌, ◌^◌}
use Prim.Native.Nat.{bit_and}

-- An address is a number; 0 is the null `CUdeviceptr`. One thread, the worker, calls the allocator.
pub record ProxyBuffer : Type 0 where
  pub buffer : ℕ
  pub size : ℕ
  pub alloc_offset : ℕ
  pub free_offset : ℕ

-- `(len + 255) & ~255ULL`
unfoldable pub align_256 : ℕ → ℕ
align_256 len = bit_and (add64 len 255) (2 ^ 64 - 256)

-- An address, 0 for "no space", beside the new state.
unfoldable pub try_alloc : ℕ → ProxyBuffer → ℕ × ProxyBuffer
try_alloc len b =
    let aligned_len = align_256 len in
    if ltb b.size (add64 b.alloc_offset aligned_len)
    then (if leb b.alloc_offset b.free_offset
        then (b.buffer, record b { alloc_offset = aligned_len; free_offset = 0 })
        else (0, b))
    else (
      add64 b.buffer b.alloc_offset,
      record b { alloc_offset = add64 b.alloc_offset aligned_len },
    )

unfoldable pub free : ℕ → ProxyBuffer → ProxyBuffer
free len b = record b { free_offset = add64 b.free_offset (align_256 len) }

unfoldable pub reset_allocator : ProxyBuffer → ProxyBuffer
reset_allocator b = record b { alloc_offset = 0; free_offset = 0 }
