-- ===== src/Nics/Laws.antt =====
-- A transfer always has a NIC, each of its NICs exists, and none is in quarantine if one is not.
use ucl_mpcomm.Common.{
  ltb, leb, ◌==◌, Bool-cases, length, get_or, ℤ, nonneg, pos, negsuc, ℕ, zero, suc, ◌+◌, ◌-◌, ◌%◌,
  ◌≤◌, ◌<◌, ◌≡◌, refl, ap, subst, ◌≢◌, ◌⊎◌, inl, inr, Bool, true, false, not, ◌&&◌, ◌||◌, List, [],
  ◌∷◌, arith,
}
use ucl_mpcomm.Common.Bits.{◌>>◌}
use ucl_mpcomm.Memory.{MemoryRegionInfo, get_numa_node_for_addr}
use ucl_mpcomm.Nics.{
  NicTopologyInfo, on_node, local_nics_from, get_local_nic_indices_for_numa, all_nics_from, or_else,
  healthy_nics, filter_quarantined, select_candidates, get_numa_for_addr,
}
use native.Mathlib.Nat.{mod-lt}

abbrev pub mem : ℕ → List ℕ → Bool
mem x [] = false
mem x (y ∷ ys) = (x == y) || mem x ys

-- A NIC may carry traffic.
abbrev pub is_healthy : List Bool → ℕ → Bool
is_healthy qs nic = ltb nic (length qs) && not (get_or qs nic false)

mem-healthy_nics :
    (qs : List Bool) (nics : List ℕ) (x : ℕ)
    → mem x (healthy_nics qs nics) ≡ mem x nics && is_healthy qs x
unfolding healthy_nics
mem-healthy_nics qs [] x = refl
mem-healthy_nics qs (nic ∷ nics) x = ground (arith, mem-healthy_nics qs nics x)

local_nics_from-lt :
    (topology : List NicTopologyInfo) (node : ℤ) (i : ℕ) (names : List (List ℕ)) (x : ℕ)
    → mem x (local_nics_from topology node i names) ≡ true
    → (i ≤ x) × (x < i + length names) × (on_node topology (get_or names (x - i) []) node ≡ true)
unfolding local_nics_from
local_nics_from-lt topology node i [] x m = cc
local_nics_from-lt topology node i (name ∷ names) x m =
    ground (arith, m, local_nics_from-lt topology node (suc i) names x)

pub mem-all_nics_from : (i n x : ℕ) → mem x (all_nics_from i n) ≡ leb i x && ltb x (i + n)
unfolding all_nics_from
mem-all_nics_from i zero x = ground arith
mem-all_nics_from i (suc n) x = ground (arith, mem-all_nics_from (suc i) n x)

num_cases : (a : ℤ) → ((n : ℕ) × (a ≡ pos n)) ⊎ ((n : ℕ) × (a ≡ negsuc n))
num_cases (pos n) = inl (n, refl)
num_cases (negsuc n) = inr (n, refl)

-- `getNumaForAddr` answers a node that exists, if there is one.
pub get_numa_for_addr-lt :
    (nics : List (List MemoryRegionInfo)) (num_numa_nodes addr : ℕ)
    → 0 < num_numa_nodes
    → get_numa_for_addr nics num_numa_nodes addr < num_numa_nodes
unfolding get_numa_for_addr
get_numa_for_addr-lt nics n addr p = elim (num_cases (get_numa_node_for_addr nics addr)) [
  | inl (node, e) ↦
      rw (e, get_numa_for_addr)
        (let hashed : (addr >> 12) % n < n = mod-lt (addr >> 12) p in ground (arith, hashed))
  | inr (node, e) ↦ rw (e, get_numa_for_addr) (mod-lt (addr >> 12) p)
]

list_cases : (xs : List ℕ) → (xs ≡ []) ⊎ ((x : ℕ) × (rest : List ℕ) × (xs ≡ x ∷ rest))
list_cases [] = inl refl
list_cases (x ∷ xs) = inr (x, xs, refl)

-- The list before the filter.
abbrev pub unfiltered : List ℕ → List ℕ → ℕ → List ℕ
unfiltered pcie_affine local_nics num_nics =
    or_else (or_else pcie_affine local_nics) (all_nics_from 0 num_nics)

-- What the filter keeps: something of a list that has something; only NICs of the list; and a NIC in
-- quarantine only where all NICs of the list are.
abbrev pub Filtered : List Bool → List ℕ → List ℕ → Type 0
Filtered qs full kept =
    (kept ≢ [])
    × ((x : ℕ) → mem x kept ≡ true → mem x full ≡ true)
    × ((x y : ℕ)
        → mem x kept ≡ true
        → is_healthy qs x ≡ false
        → mem y full ≡ true
        → is_healthy qs y ≡ false)

filter_quarantined-Filtered :
    (q : Bool) (qs : List Bool) (full : List ℕ)
    → full ≢ []
    → Filtered (q ∷ qs) full (filter_quarantined (q ∷ qs) full)
unfolding filter_quarantined
filter_quarantined-Filtered q qs full some_nic = elim (list_cases (healthy_nics (q ∷ qs) full)) [
  | inl none_healthy ↦ rw none_healthy (
    some_nic,
    λ x m. m,
    λ x y m u n. ground (arith, n, mem-healthy_nics (q ∷ qs) full y, ap (mem y) none_healthy),
  )
  | inr (h, rest, e) ↦ rw e (
    λ c. cc,
    λ x m. ground (arith, m, mem-healthy_nics (q ∷ qs) full x, ap (mem x) e),
    λ x y m u n. absurd (ground (arith, m, u, mem-healthy_nics (q ∷ qs) full x, ap (mem x) e)),
  )
]

unfiltered-some :
    (pcie_affine local_nics : List ℕ) (num_nics : ℕ)
    → 0 < num_nics
    → unfiltered pcie_affine local_nics num_nics ≢ []
unfolding all_nics_from
unfiltered-some (p ∷ ps) ls n h = λ e. cc
unfiltered-some [] (l ∷ ls) n h = λ e. cc
unfiltered-some [] [] zero h = absurd (omega arith)
unfiltered-some [] [] (suc n) h = λ e. cc

unfiltered-lt :
    (pcie_affine local_nics : List ℕ) (num_nics : ℕ)
    → ((x : ℕ) → mem x pcie_affine ≡ true → x < num_nics)
    → ((x : ℕ) → mem x local_nics ≡ true → x < num_nics)
    → (x : ℕ) → mem x (unfiltered pcie_affine local_nics num_nics) ≡ true
    → x < num_nics
unfiltered-lt (p ∷ ps) ls n h l x m = h x m
unfiltered-lt [] (k ∷ ls) n h l x m = l x m
unfiltered-lt [] [] n h l x m = ground (arith, m, mem-all_nics_from 0 n x)

-- With at least one NIC, the candidates of a transfer are not none; each of them is an index of a
-- NIC; and if one of them is in quarantine, then so are all that the filter was given.
pub select_candidates-Filtered :
    (pcie_affine local_nics : List ℕ) (num_nics : ℕ) (q : Bool) (qs : List Bool)
    → 0 < num_nics
    → ((x : ℕ) → mem x pcie_affine ≡ true → x < num_nics)
    → ((x : ℕ) → mem x local_nics ≡ true → x < num_nics)
    → let kept = select_candidates pcie_affine local_nics num_nics (q ∷ qs) in
      Filtered (q ∷ qs) (unfiltered pcie_affine local_nics num_nics) kept
      × ((x : ℕ) → mem x kept ≡ true → x < num_nics)
unfolding select_candidates
select_candidates-Filtered pcie_affine local_nics num_nics q qs some_nic p l =
    let full = unfiltered pcie_affine local_nics num_nics in
    let f =
      filter_quarantined-Filtered q qs full
        (unfiltered-some pcie_affine local_nics num_nics some_nic) in
    (f, λ x m. unfiltered-lt pcie_affine local_nics num_nics p l x (f.1 x m))

-- The NICs of a memory's node exist and are listed with that node in the topology.
pub get_local_nic_indices_for_numa-on_node :
    (topology : List NicTopologyInfo) (names : List (List ℕ)) (node : ℤ) (x : ℕ)
    → mem x (get_local_nic_indices_for_numa topology names node) ≡ true
    → (x < length names) × (on_node topology (get_or names x []) node ≡ true)
unfolding get_local_nic_indices_for_numa
get_local_nic_indices_for_numa-on_node topology names node x m = elim (Bool-cases (nonneg node)) [
  | inl known ↦
      let r = local_nics_from-lt topology node 0 names x (ground (arith, known, m)) in
      (
        omega (arith, r.1),
        subst (λ (i : ℕ). on_node topology (get_or names i []) node ≡ true) (omega arith) r.2,
      )
  | inr unknown ↦ absurd (ground (arith, unknown, m))
]
