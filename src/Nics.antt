-- ===== src/Nics.antt =====
-- Which NICs a transfer may use: the topology lookups of src/mpcomm.cpp (`getNicNumaNode`,
-- `getLocalNicIndicesForNuma`, `getNumaForAddr`) and the part of `transferAsyncStart` that fills
-- `candidate_nic_indices` where no proxy GPU is used.
pub mod Laws
mod Tests
use ucl_mpcomm.Common.{
  ltb, if◌then◌else◌, length, get_or, ℤ, minus_one, nonneg, eq_ℤ, pos, negsuc, ℕ, zero, suc, ◌%◌,
  Bool, true, false, not, ◌&&◌, List, [], ◌∷◌,
}
use ucl_mpcomm.Common.Bits.{◌>>◌}
use ucl_mpcomm.Memory.{MemoryRegionInfo, get_numa_node_for_addr}
use ucl_mpcomm.Query.{eq_string}

pub record NicTopologyInfo : Type 0 where
  pub nic_name : List ℕ
  pub numa_node : ℤ

unfoldable pub get_nic_numa_node : List NicTopologyInfo → List ℕ → ℤ
get_nic_numa_node [] name = minus_one
get_nic_numa_node (info ∷ infos) name =
    let rest = get_nic_numa_node infos name in
    if eq_string info.nic_name name then info.numa_node else rest

-- The inner loop of `getLocalNicIndicesForNuma`: some entry has the name and the node.
unfoldable pub on_node : List NicTopologyInfo → List ℕ → ℤ → Bool
on_node [] name numa_node = false
on_node (topo ∷ topos) name numa_node =
    let rest = on_node topos name numa_node in
    if eq_string topo.nic_name name && eq_ℤ topo.numa_node numa_node then true else rest

-- The outer loop, over the device names from index `i` on.
unfoldable pub local_nics_from : List NicTopologyInfo → ℤ → ℕ → List (List ℕ) → List ℕ
unfolding on_node
local_nics_from topology numa_node i [] = []
local_nics_from topology numa_node i (name ∷ names) =
    let rest = local_nics_from topology numa_node (suc i) names in
    if on_node topology name numa_node then i ∷ rest else rest

unfoldable pub get_local_nic_indices_for_numa : List NicTopologyInfo → List (List ℕ) → ℤ → List ℕ
unfolding local_nics_from
get_local_nic_indices_for_numa topology names numa_node =
    if nonneg numa_node then local_nics_from topology numa_node 0 names else []

-- All NICs from `i` on.
unfoldable pub all_nics_from : ℕ → ℕ → List ℕ
all_nics_from i zero = []
all_nics_from i (suc n) = i ∷ all_nics_from (suc i) n

abbrev pub or_else {ℓ} : {A : Type ℓ} → List A → List A → List A
or_else [] ys = ys
or_else (x ∷ xs) ys = x ∷ xs

-- `in_quarantine` lists that flag of each NIC.
unfoldable pub healthy_nics : List Bool → List ℕ → List ℕ
healthy_nics in_quarantine [] = []
healthy_nics in_quarantine (nic ∷ nics) =
    let rest = healthy_nics in_quarantine nics in
    if ltb nic (length in_quarantine) && not (get_or in_quarantine nic false)
    then nic ∷ rest
    else rest

-- If all are in quarantine, the full list stays.
unfoldable pub filter_quarantined : List Bool → List ℕ → List ℕ
unfolding healthy_nics
filter_quarantined [] nics = nics
filter_quarantined (q ∷ qs) nics = or_else (healthy_nics (q ∷ qs) nics) nics

-- The NICs near the GPU, or those of the memory's node, or all of them; less those in quarantine.
unfoldable pub select_candidates : List ℕ → List ℕ → ℕ → List Bool → List ℕ
unfolding all_nics_from filter_quarantined
select_candidates pcie_affine local_nics num_nics in_quarantine =
    filter_quarantined in_quarantine
      (or_else (or_else pcie_affine local_nics) (all_nics_from 0 num_nics))

-- An unknown or unsuitable node is replaced by a hash of the address.
unfoldable pub get_numa_for_addr : List (List MemoryRegionInfo) → ℕ → ℕ → ℕ
get_numa_for_addr nics num_numa_nodes addr = elim (get_numa_node_for_addr nics addr) [
  | pos node ↦ if ltb node num_numa_nodes then node else (addr >> 12) % num_numa_nodes
  | negsuc n ↦ (addr >> 12) % num_numa_nodes
]
