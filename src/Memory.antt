-- ===== src/Memory.antt =====
-- The memory regions of src/mpcomm.cpp: `registerMemory`, `unregisterMemory` and the lookups of
-- `MPComm::Impl` by address. The state is the list `memory_regions` of each NIC, in NIC order.
pub mod Laws
mod Tests
use ucl_mpcomm.Common.{
  ltb, leb, ◌==◌, if◌then◌else◌, length, get_or, ℤ, minus_one, nonneg, eq_ℤ, add64, ℕ, suc, Bool,
  not, ◌&&◌, ◌||◌, Option, none, some, List, [], ◌∷◌, ◌++◌,
}
use ucl_mpcomm.Errors.{success, err_context, err_memory, err_invalid_arg}

-- What `ibv_reg_mr` returns: the region's identity and its keys.
pub record IbvMr : Type 0 where
  pub id : ℕ
  pub lkey : ℕ
  pub rkey : ℕ

pub record MemoryRegionInfo : Type 0 where
  pub addr : ℕ
  pub length : ℕ
  pub mr : IbvMr
  pub lkey : ℕ
  pub rkey : ℕ
  pub numa_node : ℤ
  pub is_gpu : Bool
  pub gpu_device_id : ℤ
  pub pcie_affine_nic_indices : List ℕ

-- What the calls ask the machine: the CUDA driver, the kernel's `move_pages` (`none` where the call
-- fails), the device tree, and the registration of a block with a NIC (`none` where it fails).
pub record Machine : Type 0 where
  pub detect_gpu_device : ℕ → ℤ
  pub get_gpu_numa_node : ℤ → ℤ
  pub move_pages : ℕ → Option ℤ
  pub get_gpu_pcie_affinity_nics : ℤ → List ℕ
  pub ibv_reg_mr : ℕ → ℕ → ℕ → Option IbvMr

-- The NUMA node of host memory, from `move_pages`.
unfoldable pub page_node : Option ℤ → ℤ
page_node none = minus_one
page_node (some status) = if nonneg status then status else minus_one

unfoldable pub region_info : Machine → ℕ → ℕ → IbvMr → MemoryRegionInfo
unfolding page_node
region_info machine addr len mr =
    let gpu_device_id = machine.detect_gpu_device addr in
    let is_gpu = nonneg gpu_device_id in
    record {
      addr = addr;
      length = len;
      mr = mr;
      lkey = mr.lkey;
      rkey = mr.rkey;
      numa_node =
          if is_gpu
          then machine.get_gpu_numa_node gpu_device_id
          else page_node (machine.move_pages addr);
      is_gpu = is_gpu;
      gpu_device_id = gpu_device_id;
      pcie_affine_nic_indices =
          if is_gpu then machine.get_gpu_pcie_affinity_nics gpu_device_id else [];
    }

-- Takes the first region at the address out, and says which MR was deregistered with it.
unfoldable pub remove_region : ℕ → List MemoryRegionInfo → List MemoryRegionInfo × List IbvMr
remove_region addr [] = ([], [])
remove_region addr (r ∷ rs) =
    let rest = remove_region addr rs in
    if r.addr == addr then (rs, r.mr ∷ []) else (r ∷ rest.0, rest.1)

-- The state after a call, its code, and the MRs given to `ibv_dereg_mr`, in order.
pub record Outcome : Type 0 where
  pub code : ℤ
  pub nics : List (List MemoryRegionInfo)
  pub deregistered : List IbvMr

-- The loop over the NICs from `nic` on. Where a later NIC fails, the region at the address is taken
-- out again of each NIC before it.
unfoldable pub register_from : Machine → ℕ → ℕ → ℕ → List (List MemoryRegionInfo) → Outcome
unfolding region_info remove_region
register_from machine addr len nic [] = record { code = success; nics = []; deregistered = [] }
register_from machine addr len nic (regions ∷ nics) = elim (machine.ibv_reg_mr nic addr len) [
  | none ↦ record { code = err_memory; nics = regions ∷ nics; deregistered = [] }
  | some mr ↦
      let rest = register_from machine addr len (suc nic) nics in
      let added = regions ++ (region_info machine addr len mr ∷ []) in
      let undone = remove_region addr added in
      if eq_ℤ rest.code success
      then record { code = success; nics = added ∷ rest.nics; deregistered = [] }
      else record {
        code = rest.code;
        nics = undone.0 ∷ rest.nics;
        deregistered = undone.1 ++ rest.deregistered;
      }
]

unfoldable pub register_memory : Bool → Machine → ℕ → ℕ → List (List MemoryRegionInfo) → Outcome
unfolding register_from
register_memory initialized machine addr len nics =
    if not initialized
    then record { code = err_context; nics = nics; deregistered = [] }
    else if (addr == 0) || (len == 0)
    then record { code = err_invalid_arg; nics = nics; deregistered = [] }
    else register_from machine addr len 0 nics

unfoldable pub unregister_from : ℕ → List (List MemoryRegionInfo) → Outcome
unfolding remove_region
unregister_from addr [] = record { code = success; nics = []; deregistered = [] }
unregister_from addr (regions ∷ nics) =
    let undone = remove_region addr regions in
    let rest = unregister_from addr nics in
    record {
      code = success;
      nics = undone.0 ∷ rest.nics;
      deregistered = undone.1 ++ rest.deregistered;
    }

unfoldable pub unregister_memory : Bool → ℕ → List (List MemoryRegionInfo) → Outcome
unfolding unregister_from
unregister_memory initialized addr nics =
    if not initialized
    then record { code = err_context; nics = nics; deregistered = [] }
    else if addr == 0
    then record { code = err_invalid_arg; nics = nics; deregistered = [] }
    else unregister_from addr nics

-- `target >= start && target < end`
unfoldable pub contains : MemoryRegionInfo → ℕ → Bool
contains r target = leb r.addr target && ltb target (add64 r.addr r.length)

-- The first region that contains the address, as all four lookups seek it.
unfoldable pub find_region : ℕ → List MemoryRegionInfo → Option MemoryRegionInfo
unfolding contains
find_region target [] = none
find_region target (r ∷ rs) =
    let rest = find_region target rs in if contains r target then some r else rest

-- A NIC out of range has no regions.
unfoldable pub get_lkey : List (List MemoryRegionInfo) → ℕ → ℕ → ℕ
unfolding find_region
get_lkey nics nic_index addr = elim (find_region addr (get_or nics nic_index [])) [
  | none ↦ 0
  | some r ↦ r.lkey
]

unfoldable pub get_rkey : List (List MemoryRegionInfo) → ℕ → ℕ → ℕ
unfolding find_region
get_rkey nics nic_index addr = elim (find_region addr (get_or nics nic_index [])) [
  | none ↦ 0
  | some r ↦ r.rkey
]

-- The first NIC stands for all.
unfoldable pub get_numa_node_for_addr : List (List MemoryRegionInfo) → ℕ → ℤ
unfolding find_region
get_numa_node_for_addr nics addr =
    let node : ℤ = elim (find_region addr (get_or nics 0 [])) [
      | none ↦ minus_one
      | some r ↦ r.numa_node
    ] in
    if addr == 0 then minus_one else node

unfoldable pub get_pcie_affinity_nics_for_addr : List (List MemoryRegionInfo) → ℕ → List ℕ
unfolding find_region
get_pcie_affinity_nics_for_addr nics addr =
    let indices : List ℕ = elim (find_region addr (get_or nics 0 [])) [
      | none ↦ []
      | some r ↦ r.pcie_affine_nic_indices
    ] in
    if addr == 0 then [] else indices
