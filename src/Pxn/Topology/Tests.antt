-- ===== src/Pxn/Topology/Tests.antt =====
-- Two GPUs that are peers, each with a NIC of its own.
use ucl_mpcomm.Common.{
  ℕ, zero, suc, ◌≡◌, refl, sym, ap, ◌∙◌, true, Option, none, some, [], ◌∷◌, arith,
}
use ucl_mpcomm.Worker.Loop.{has, add_nics}
use ucl_mpcomm.Pxn.Topology.{
  PxnGpuInfo, Devices, build_topology, discover_nvlink_topology, gpus_from, peers_from, has_nvlink,
  set_direct, get_all_reachable_nics, get_proxy_gpu_for_nic, add_peers,
}
use ucl_mpcomm.Pxn.Topology.Laws.{Near, mapped, get_proxy_gpu_for_nic-PeerNear}

abbrev devices : Devices
devices = record {
  device_count = some 2;
  can_access_peer = λ i j. true;
  get_gpu_pcie_nics = λ gpu. gpu ∷ [];
}

abbrev gpu_0 : PxnGpuInfo
gpu_0 = record { direct_nic_indices = 0 ∷ []; nvlink_peers = 1 ∷ [] }

abbrev gpu_1 : PxnGpuInfo
gpu_1 = record { direct_nic_indices = 1 ∷ []; nvlink_peers = 0 ∷ [] }

built : build_topology devices ≡ some (mapped (gpu_0 ∷ gpu_1 ∷ []))
unfolding build_topology discover_nvlink_topology gpus_from peers_from has_nvlink set_direct
built = refl

-- GPU k is near NIC k only.
own_nic : (k n : ℕ) → Near (gpu_0 ∷ gpu_1 ∷ []) k n → n ≡ k
own_nic zero n near =
    let same : gpu_0 ≡ near.info =
      ap (λ (o : Option PxnGpuInfo). elim o [ none ↦ gpu_0 | some x ↦ x ]) near.at in
    ground (arith, ap (λ (x : PxnGpuInfo). has n x.direct_nic_indices) same, near.near)
own_nic (suc zero) n near =
    let same : gpu_1 ≡ near.info =
      ap (λ (o : Option PxnGpuInfo). elim o [ none ↦ gpu_1 | some x ↦ x ]) near.at in
    ground (arith, ap (λ (x : PxnGpuInfo). has n x.direct_nic_indices) same, near.near)
own_nic (suc (suc k)) n near = absurd (ground (arith, near.at))

alone : (j k n : ℕ) → Near (gpu_0 ∷ gpu_1 ∷ []) j n → Near (gpu_0 ∷ gpu_1 ∷ []) k n → j ≡ k
alone j k n a b = sym (own_nic j n a) ∙ own_nic k n b

reached : has 1 (get_all_reachable_nics (mapped (gpu_0 ∷ gpu_1 ∷ [])) 0) ≡ true
unfolding get_all_reachable_nics add_peers add_nics
reached = refl

get_proxy_gpu_for_nic-PeerNear_example :
    (proxy : ℕ) × (get_proxy_gpu_for_nic (mapped (gpu_0 ∷ gpu_1 ∷ [])) 0 1 ≡ some proxy)
    × (has proxy gpu_0.nvlink_peers ≡ true)
    × Near (gpu_0 ∷ gpu_1 ∷ []) proxy 1
get_proxy_gpu_for_nic-PeerNear_example =
    get_proxy_gpu_for_nic-PeerNear (gpu_0 ∷ gpu_1 ∷ []) 0 gpu_0 1 alone refl refl reached
