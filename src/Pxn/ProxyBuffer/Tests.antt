-- ===== src/Pxn/ProxyBuffer/Tests.antt =====
-- A proxy buffer of 1024 bytes with two blocks handed out.
use ucl_mpcomm.Common.{◌+◌, ◌<◌, ◌≡◌, refl, ◌≢◌, ◌⊎◌, [], ◌∷◌, arith}
use ucl_mpcomm.Pxn.ProxyBuffer.{ProxyBuffer, align_256, try_alloc}
use ucl_mpcomm.Pxn.ProxyBuffer.Invariant.{
  align_256_lem, Block, Inv, Granted, try_alloc-Granted, try_alloc_oversize,
}

abbrev idle : ProxyBuffer
idle = record { buffer = 4096; size = 1024; alloc_offset = 0; free_offset = 0 }

abbrev older : Block
older = record { offset = 0; len = 100 }

abbrev newer : Block
newer = record { offset = 256; len = 300 }

abbrev busy : ProxyBuffer
busy = record { buffer = 4096; size = 1024; alloc_offset = 768; free_offset = 0 }

two_requests : (try_alloc 300 (try_alloc 100 idle).1).1 ≡ busy
unfolding try_alloc align_256
two_requests = refl

busy-Inv : Inv busy (newer ∷ older ∷ [])
unfolding align_256
busy-Inv = omega arith

align_256_lem_example : align_256 300 ≡ 512
align_256_lem_example = align_256_lem 300 (omega arith)

try_alloc-Granted_example :
    Granted busy 700 (newer ∷ older ∷ []) (try_alloc 700 busy)
    ⊎ ((try_alloc 700 busy ≡ (0, busy)) × (newer ∷ older ∷ [] ≢ []))
unfolding align_256
try_alloc-Granted_example =
    try_alloc-Granted 700 busy (newer ∷ older ∷ []) busy-Inv (omega arith) (omega arith)
      (omega arith)

idle-Inv : Inv idle []
idle-Inv = omega arith

try_alloc_oversize_example :
    ((try_alloc 2000 idle).0 ≡ 4096) × (4096 + 1024 < (try_alloc 2000 idle).0 + 2000)
try_alloc_oversize_example = try_alloc_oversize 2000 idle idle-Inv (omega arith) (omega arith)
