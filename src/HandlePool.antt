-- ===== src/HandlePool.antt =====
-- `MPComm::Impl::HandlePool` of src/mpcomm.cpp: transfer handles recycled within 16 bits.
pub mod Invariant
mod Tests
use ucl_mpcomm.Common.{leb, ◌==◌, if◌then◌else◌, ℕ, ◌+◌, List, [], ◌∷◌}

abbrev pub max_handle : ℕ
max_handle = 0xFFFF

abbrev pub min_handle : ℕ
min_handle = 1

-- `INVALID_TRANSFER_HANDLE` of include/mpcomm.h.
abbrev pub invalid_transfer_handle : ℕ
invalid_transfer_handle = 0

-- The head of `free_list` is the back of the vector.
pub record HandlePool : Type 0 where
  pub free_list : List ℕ
  pub next_new_handle : ℕ

abbrev pub new_pool : HandlePool
new_pool = record { free_list = []; next_new_handle = min_handle }

-- A handle never given out yet, or the invalid one.
unfoldable pub allocate_new : HandlePool → ℕ × HandlePool
allocate_new p =
    if leb p.next_new_handle max_handle
    then (p.next_new_handle, record p { next_new_handle = p.next_new_handle + 1 })
    else (invalid_transfer_handle, p)

unfoldable pub allocate : HandlePool → ℕ × HandlePool
unfolding allocate_new
allocate p = elim p.free_list [
  | h ∷ rest ↦ (h, record p { free_list = rest })
  | [] ↦ allocate_new p
]

unfoldable pub release : ℕ → HandlePool → HandlePool
release handle p =
    if handle == invalid_transfer_handle then p else record p { free_list = handle ∷ p.free_list }
