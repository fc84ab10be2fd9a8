-- ===== src/Memory/Tests.antt =====
-- Two NICs, one of which has a region already, and host memory on NUMA node 1.
use ucl_mpcomm.Common.{
  All, minus_one, pos, ℕ, zero, suc, ◌+◌, ◌≡◌, refl, true, false, Option, none, some, List, [], ◌∷◌,
  arith,
}
use ucl_mpcomm.Errors.{success}
use ucl_mpcomm.Memory.{
  IbvMr, MemoryRegionInfo, Machine, register_memory, unregister_memory, contains,
}
use ucl_mpcomm.Memory.Laws.{Free, AllOrNone, register_memory-AllOrNone, unregister_memory-register}

abbrev key : ℕ → IbvMr
key n = record { id = n; lkey = n + 10; rkey = n + 20 }

abbrev grants : ℕ → Option IbvMr
grants zero = some (key 0)
grants (suc n) = some (key (suc n))

abbrev refuses : ℕ → Option IbvMr
refuses zero = some (key 0)
refuses (suc n) = none

abbrev host : (ℕ → Option IbvMr) → Machine
host reg = record {
  detect_gpu_device = λ _. minus_one;
  get_gpu_numa_node = λ _. minus_one;
  move_pages = λ _. some (pos 1);
  get_gpu_pcie_affinity_nics = λ _. [];
  ibv_reg_mr = λ nic addr len. reg nic;
}

abbrev old_region : MemoryRegionInfo
old_region = record {
  addr = 8192;
  length = 100;
  mr = key 7;
  lkey = 17;
  rkey = 27;
  numa_node = pos 0;
  is_gpu = false;
  gpu_device_id = minus_one;
  pcie_affine_nic_indices = [];
}

abbrev two : List (List MemoryRegionInfo)
two = [] ∷ (old_region ∷ []) ∷ []

two-Free : All (Free 4096) two
two-Free = (tt, ((λ e. omega arith, tt), tt))

registered : (register_memory true (host grants) 4096 64 two).code ≡ success
unfolding register_memory
registered = refl

rolled_back : (register_memory true (host refuses) 4096 64 two).deregistered ≡ key 0 ∷ []
unfolding register_memory
rolled_back = refl

register_memory-AllOrNone_example :
    AllOrNone (host refuses) 4096 64 0 two (register_memory true (host refuses) 4096 64 two)
register_memory-AllOrNone_example =
    register_memory-AllOrNone (host refuses) 4096 64 two (λ e. omega arith) (λ e. omega arith)
      two-Free

unregister_memory-register_example :
    (unregister_memory true 4096 (register_memory true (host grants) 4096 64 two).nics).nics ≡ two
unregister_memory-register_example =
    unregister_memory-register (host grants) 4096 64 two (λ e. omega arith) (λ e. omega arith)
      two-Free

apart : contains old_region 4100 ≡ false
unfolding contains
apart = refl
