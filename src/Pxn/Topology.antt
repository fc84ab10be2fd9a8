-- ===== src/Pxn/Topology.antt =====
-- The GPUs of `PxnManager` in src/mpcomm_pxn.cpp: `discoverNvlinkTopology`, the mapping of NICs to
-- GPUs in `init`, `getAllReachableNics`, `getProxyGpuForNic` and the keys of proxy buffers. A GPU is
-- known by its device id, which is its place in the topology.
pub mod Laws
mod Tests
use ucl_mpcomm.Common.{
  leb, ◌==◌, if◌then◌else◌, length, get_elem?, ℕ, zero, suc, Bool, false, not, ◌&&◌, ◌||◌, Option,
  none, some, List, [], ◌∷◌,
}
use ucl_mpcomm.Worker.Loop.{has, add_nics}

pub record PxnGpuInfo : Type 0 where
  pub direct_nic_indices : List ℕ
  pub nvlink_peers : List ℕ

-- What the CUDA driver and sysfs say: the number of devices, none where the driver does not start;
-- whether one device can access another; and the NICs near a device.
pub record Devices : Type 0 where
  pub device_count : Option ℕ
  pub can_access_peer : ℕ → ℕ → Bool
  pub get_gpu_pcie_nics : ℕ → List ℕ

-- The peers among `n` devices from `j` on.
unfoldable pub peers_from : (ℕ → ℕ → Bool) → ℕ → ℕ → ℕ → List ℕ
peers_from access i j zero = []
peers_from access i j (suc n) =
    let rest = peers_from access i (suc j) n in
    if i == j then rest else if access i j then j ∷ rest else rest

unfoldable pub gpus_from : (ℕ → ℕ → Bool) → ℕ → ℕ → ℕ → List PxnGpuInfo
unfolding peers_from
gpus_from access count i zero = []
gpus_from access count i (suc n) =
    record { direct_nic_indices = []; nvlink_peers = peers_from access i 0 count }
    ∷ gpus_from access count (suc i) n

unfoldable pub has_nvlink : List PxnGpuInfo → Bool
has_nvlink [] = false
has_nvlink (g ∷ gs) = not (length g.nvlink_peers == 0) || has_nvlink gs

-- `none` where no GPU has a peer, or there are fewer than two.
unfoldable pub discover_nvlink_topology : Devices → Option (List PxnGpuInfo)
unfolding gpus_from has_nvlink
discover_nvlink_topology d = elim d.device_count [
  | none ↦ none
  | some count ↦
      let gpus = gpus_from d.can_access_peer count 0 count in
      if leb count 1 then none else if has_nvlink gpus then some gpus else none
]

-- `nic_to_gpu_[nic_idx] = gpu` for each NIC.
unfoldable pub put_each : List ℕ → ℕ → (ℕ → Option ℕ) → ℕ → Option ℕ
put_each [] gpu m = m
put_each (nic ∷ nics) gpu m = put_each nics gpu (λ k. if k == nic then some gpu else m k)

unfoldable pub set_direct : (ℕ → List ℕ) → ℕ → List PxnGpuInfo → List PxnGpuInfo
set_direct nics_of i [] = []
set_direct nics_of i (g ∷ gs) =
    record g { direct_nic_indices = nics_of i } ∷ set_direct nics_of (suc i) gs

-- A NIC near several GPUs is mapped to the last.
unfoldable pub map_nics : ℕ → List PxnGpuInfo → (ℕ → Option ℕ) → ℕ → Option ℕ
unfolding put_each
map_nics i [] m = m
map_nics i (g ∷ gs) m = map_nics (suc i) gs (put_each g.direct_nic_indices i m)

pub record Topology : Type 0 where
  pub gpus : List PxnGpuInfo
  pub nic_to_gpu : ℕ → Option ℕ

-- Steps 1 and 2 of `init`.
unfoldable pub build_topology : Devices → Option Topology
unfolding discover_nvlink_topology set_direct map_nics
build_topology d = elim (discover_nvlink_topology d) [
  | none ↦ none
  | some found ↦
      let gpus = set_direct d.get_gpu_pcie_nics 0 found in
      some (record { gpus = gpus; nic_to_gpu = map_nics 0 gpus (λ nic. none) })
]

unfoldable pub add_peers : List PxnGpuInfo → List ℕ → List ℕ → List ℕ
add_peers gpus [] seen = seen
add_peers gpus (peer ∷ peers) seen =
    add_peers gpus peers
      (elim (get_elem? gpus peer) [ none ↦ seen | some g ↦ add_nics g.direct_nic_indices seen ])

-- The direct NICs first, then those of the peers, without repetition.
unfoldable pub get_all_reachable_nics : Topology → ℕ → List ℕ
unfolding add_peers
get_all_reachable_nics t gpu = elim (get_elem? t.gpus gpu) [
  | none ↦ []
  | some g ↦ add_peers t.gpus g.nvlink_peers g.direct_nic_indices
]

-- `none` is -1: no proxy is needed, or none is known.
unfoldable pub get_proxy_gpu_for_nic : Topology → ℕ → ℕ → Option ℕ
get_proxy_gpu_for_nic t gpu nic = elim (get_elem? t.gpus gpu) [
  | none ↦ none
  | some g ↦ if has nic g.direct_nic_indices then none else t.nic_to_gpu nic
]

-- `proxy_lkeys_`, where a missing key is 0.
unfoldable pub set_proxy_lkey : ℕ → ℕ → ℕ → (ℕ → ℕ → ℕ) → ℕ → ℕ → ℕ
set_proxy_lkey gpu nic lkey keys g n = if (g == gpu) && (n == nic) then lkey else keys g n
