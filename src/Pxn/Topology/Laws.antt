-- ===== src/Pxn/Topology/Laws.antt =====
-- Which NICs a GPU reaches, and through which GPU.
use ucl_mpcomm.Common.{
  ◌==◌, if◌then◌else◌, Bool-cases, Option-cases, get_elem?, ℕ, zero, suc, ◌+◌, ◌≡◌, refl, sym, ap,
  subst, ◌∙◌, ◌⊎◌, inl, inr, true, false, Option, none, some, List, [], ◌∷◌, arith,
}
use ucl_mpcomm.Worker.Loop.{has, add_nics}
use ucl_mpcomm.Worker.Loop.Invariant.{has-add_nics}
use ucl_mpcomm.Pxn.Topology.{
  PxnGpuInfo, put_each, map_nics, Topology, add_peers, get_all_reachable_nics,
  get_proxy_gpu_for_nic,
}

-- A GPU of the topology is near a NIC.
pub record Near (gpus : List PxnGpuInfo) (gpu nic : ℕ) : Type 0 where
  pub info : PxnGpuInfo
  pub at : get_elem? gpus gpu ≡ some info
  pub near : has nic info.direct_nic_indices ≡ true

-- One of some peers is near the NIC.
pub record PeerNear (gpus : List PxnGpuInfo) (peers : List ℕ) (nic : ℕ) : Type 0 where
  pub peer : ℕ
  pub among : has peer peers ≡ true
  pub near : Near gpus peer nic

put_each-at :
    (nics : List ℕ) (gpu : ℕ) (m : ℕ → Option ℕ) (nic : ℕ)
    → let expected : Option ℕ = if has nic nics then some gpu else m nic in
      put_each nics gpu m nic ≡ expected
unfolding put_each
put_each-at [] gpu m nic = refl
put_each-at (x ∷ xs) gpu m nic =
    put_each-at xs gpu (λ k. if k == x then some gpu else m k) nic ∙ ground arith

not-Near :
    (g : PxnGpuInfo) (gs : List PxnGpuInfo) (nic : ℕ)
    → has nic g.direct_nic_indices ≡ false
    → Near (g ∷ gs) 0 nic
    → ⊥
not-Near g gs nic far n =
    let same : g ≡ n.info = ap (λ (o : Option PxnGpuInfo). elim o [ none ↦ g | some x ↦ x ]) n.at in
    ground (arith, sym (ap (λ (x : PxnGpuInfo). has nic x.direct_nic_indices) same) ∙ far, n.near)

-- What `map_nics` makes of a NIC: nothing if no GPU is near it, and else one that is.
map_nics-Near :
    (i : ℕ) (gpus : List PxnGpuInfo) (m : ℕ → Option ℕ) (nic : ℕ)
    → ((map_nics i gpus m nic ≡ m nic) × ((k : ℕ) → Near gpus k nic → ⊥))
      ⊎ ((k : ℕ) × (map_nics i gpus m nic ≡ some (i + k)) × Near gpus k nic)
unfolding map_nics
map_nics-Near i [] m nic = inl (refl, λ k n. ground (arith, n.at))
map_nics-Near i (g ∷ gs) m nic =
    let here = put_each-at g.direct_nic_indices i m nic in
    elim (map_nics-Near (suc i) gs (put_each g.direct_nic_indices i m) nic) [
      | inr (k, e, n) ↦
          inr (suc k, e ∙ ap some (omega arith), record { info = n.info; at = n.at; near = n.near })
      | inl (e, nowhere) ↦ elim (Bool-cases (has nic g.direct_nic_indices)) [
        | inl near ↦ inr (
          0,
          e ∙ here ∙ rw (near) (ap some (omega arith)),
          record { info = g; at = refl; near = near },
        )
        | inr far ↦ inl (
          e ∙ here ∙ rw (far) refl,
          λ k. elim k as (λ j. Near (g ∷ gs) j nic → ⊥) [
            | zero ↦ λ n. not-Near g gs nic far n
            | suc j ↦ λ n. nowhere j (record { info = n.info; at = n.at; near = n.near })
          ],
        )
      ]
    ]

add_peers-has :
    (gpus : List PxnGpuInfo) (peers seen : List ℕ) (nic : ℕ)
    → has nic (add_peers gpus peers seen) ≡ true
    → (has nic seen ≡ true) ⊎ PeerNear gpus peers nic
unfolding add_peers
add_peers-has gpus [] seen nic = λ e. inl e
add_peers-has gpus (peer ∷ peers) seen nic = elim (Option-cases (get_elem? gpus peer)) [
  | inl unknown ↦
      rw (unknown, add_peers)
        (λ e. elim (add_peers-has gpus peers seen nic e) [
          | inl s ↦ inl s
          | inr p ↦ inr (record { peer = p.peer; among = ground (arith, p.among); near = p.near })
        ])
  | inr (g, at) ↦
      rw (at, add_peers)
        (λ e. elim (add_peers-has gpus peers (add_nics g.direct_nic_indices seen) nic e) [
          | inl s ↦ elim (Bool-cases (has nic g.direct_nic_indices)) [
            | inl near ↦ inr (record {
              peer = peer;
              among = ground arith;
              near = record { info = g; at = at; near = near };
            })
            | inr far ↦
                inl (ground (arith, sym (has-add_nics nic g.direct_nic_indices seen) ∙ s, far))
          ]
          | inr p ↦ inr (record { peer = p.peer; among = ground (arith, p.among); near = p.near })
        ])
]

-- The topology with the mapping of its NICs, as `build_topology` makes it.
abbrev pub mapped : List PxnGpuInfo → Topology
mapped gpus = record { gpus = gpus; nic_to_gpu = map_nics 0 gpus (λ nic. none) }

-- If no NIC is near two GPUs, then for a NIC that a GPU reaches but is not near to, the proxy is one
-- of the GPU's peers, and is near the NIC.
pub get_proxy_gpu_for_nic-PeerNear :
    (gpus : List PxnGpuInfo) (gpu : ℕ) (g : PxnGpuInfo) (nic : ℕ)
    → ((j k n : ℕ) → Near gpus j n → Near gpus k n → j ≡ k)
    → get_elem? gpus gpu ≡ some g
    → has nic g.direct_nic_indices ≡ false
    → has nic (get_all_reachable_nics (mapped gpus) gpu) ≡ true
    → (proxy : ℕ) × (get_proxy_gpu_for_nic (mapped gpus) gpu nic ≡ some proxy)
      × (has proxy g.nvlink_peers ≡ true)
      × Near gpus proxy nic
unfolding get_all_reachable_nics get_proxy_gpu_for_nic
get_proxy_gpu_for_nic-PeerNear gpus gpu g nic alone at far reached =
    let found : has nic (add_peers gpus g.nvlink_peers g.direct_nic_indices) ≡ true =
      rw (at, get_all_reachable_nics) at reached in
    elim (add_peers-has gpus g.nvlink_peers g.direct_nic_indices nic found) [
      | inl direct ↦ absurd (ground (arith, direct, far))
      | inr p ↦ elim (map_nics-Near 0 gpus (λ n. none) nic) [
        | inl (e, nowhere) ↦ absurd (nowhere p.peer p.near)
        | inr (k, e, n) ↦
            let same : k ≡ p.peer = alone k p.peer nic n p.near in
            (
              k,
              rw (at, far, get_proxy_gpu_for_nic) (e ∙ ap some (omega arith)),
              subst (λ x. has x g.nvlink_peers ≡ true) (sym same) p.among,
              n,
            )
      ]
    ]
