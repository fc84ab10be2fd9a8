-- ===== src/Memory/Laws.antt =====
-- Registration is all or nothing, undone by deregistration, and found again by the lookups.
use ucl_mpcomm.Common.{
  Option-cases, length, get_or, All, add64, ℕ, zero, suc, ◌+◌, ◌≤◌, ◌<◌, ◌≡◌, refl, subst, ◌≢◌, ◌⊎◌,
  inl, inr, true, false, none, some, List, [], ◌∷◌, ◌++◌, arith,
}
use ucl_mpcomm.Errors.{success, err_memory}
use ucl_mpcomm.Memory.{
  IbvMr, MemoryRegionInfo, Machine, region_info, remove_region, Outcome, register_from,
  register_memory, unregister_from, unregister_memory, contains, find_region, get_lkey, get_rkey,
}

-- No region of a list begins at the address.
abbrev pub Free : ℕ → List MemoryRegionInfo → Type 0
Free addr regions = All (λ (r : MemoryRegionInfo). r.addr ≢ addr) regions

remove_region_last :
    (addr : ℕ) (regions : List MemoryRegionInfo) (r : MemoryRegionInfo)
    → Free addr regions
    → r.addr ≡ addr
    → remove_region addr (regions ++ (r ∷ [])) ≡ (regions, r.mr ∷ [])
unfolding remove_region
remove_region_last addr [] r f e = ground (arith, e)
remove_region_last addr (s ∷ regions) r f e =
    ground (arith, f.0, remove_region_last addr regions r f.1 e)

remove_region_none :
    (addr : ℕ) (regions : List MemoryRegionInfo)
    → Free addr regions
    → remove_region addr regions ≡ (regions, [])
unfolding remove_region
remove_region_none addr [] f = refl
remove_region_none addr (s ∷ regions) f = ground (arith, f.0, remove_region_none addr regions f.1)

module _ (machine : Machine) (addr len : ℕ) where
  -- The MRs that the NICs from `nic` on grant, up to the first that refuses.
  abbrev pub granted : ℕ → ℕ → List IbvMr
  granted nic zero = []
  granted nic (suc n) = elim (machine.ibv_reg_mr nic addr len) [
    | none ↦ []
    | some mr ↦ mr ∷ granted (suc nic) n
  ]

  -- Every NIC from `nic` on has the region added behind its old ones.
  abbrev pub Added : ℕ → List (List MemoryRegionInfo) → List (List MemoryRegionInfo) → Type 0
  Added nic [] after = after ≡ []
  Added nic (regions ∷ before) after =
      (mr : IbvMr) × (rest : List (List MemoryRegionInfo)) × (machine.ibv_reg_mr nic addr len
        ≡ some mr)
      × (after ≡ (regions ++ (region_info machine addr len mr ∷ [])) ∷ rest)
      × Added (suc nic) before rest

  -- A call succeeds with the region on every NIC and nothing deregistered, or fails with the NICs
  -- as they were and every MR given back that was granted.
  abbrev pub AllOrNone : ℕ → List (List MemoryRegionInfo) → Outcome → Type 0
  AllOrNone nic before o =
      ((o.code ≡ success) × Added nic before o.nics × (o.deregistered ≡ []))
      ⊎ ((o.code ≡ err_memory) × (o.nics ≡ before) × (o.deregistered ≡ granted nic (length before)))

  register_from-AllOrNone :
      (nic : ℕ) (nics : List (List MemoryRegionInfo))
      → All (Free addr) nics
      → AllOrNone nic nics (register_from machine addr len nic nics)
  unfolding register_from region_info
  register_from-AllOrNone nic [] f = inl (refl, refl, refl)
  register_from-AllOrNone nic (regions ∷ nics) f =
      elim (Option-cases (machine.ibv_reg_mr nic addr len)) [
        | inl refused ↦ rw (refused, register_from) (inr (refl, refl, refl))
        | inr (mr, e) ↦
            let undone =
              remove_region_last addr regions (region_info machine addr len mr) f.0 refl in
            elim (register_from-AllOrNone (suc nic) nics f.1) [
              | inl (ok, added, none_back) ↦
                  rw (e, register_from, ok) (inl (refl, (mr, _, refl, refl, added), refl))
              | inr (bad, same, back) ↦
                  rw (e, register_from, bad, undone, same, back) (inr (refl, refl, refl))
            ]
      ]

  -- `registerMemory` of a block whose address no NIC has yet succeeds on every NIC, or fails and
  -- leaves every NIC as it was, with exactly the MRs that had been granted deregistered.
  pub register_memory-AllOrNone :
      (nics : List (List MemoryRegionInfo))
      → addr ≢ 0
      → len ≢ 0
      → All (Free addr) nics
      → AllOrNone 0 nics (register_memory true machine addr len nics)
  unfolding register_memory
  register_memory-AllOrNone nics a l f = ground (arith, register_from-AllOrNone 0 nics f)

unregister_from_none :
    (addr : ℕ) (nics : List (List MemoryRegionInfo))
    → All (Free addr) nics
    → (unregister_from addr nics).nics ≡ nics
unfolding unregister_from
unregister_from_none addr [] f = refl
unregister_from_none addr (regions ∷ nics) f =
    rw (remove_region_none addr regions f.0, unregister_from_none addr nics f.1) refl

unregister_from-Added :
    (machine : Machine) (addr len nic : ℕ) (before after : List (List MemoryRegionInfo))
    → All (Free addr) before
    → Added machine addr len nic before after
    → (unregister_from addr after).nics ≡ before
unfolding unregister_from region_info
unregister_from-Added machine addr len nic [] after f e = rw e refl
unregister_from-Added machine addr len nic (regions ∷ before) after f (mr, rest, g, e, more) =
    rw
      (
        e,
        remove_region_last addr regions (region_info machine addr len mr) f.0 refl,
        unregister_from-Added machine addr len (suc nic) before rest f.1 more,
      )
      refl

-- Deregistering the block after `registerMemory`, whether that call succeeded or not, gives every
-- NIC the regions it had before.
pub unregister_memory-register :
    (machine : Machine) (addr len : ℕ) (nics : List (List MemoryRegionInfo))
    → addr ≢ 0
    → len ≢ 0
    → All (Free addr) nics
    → (unregister_memory true addr (register_memory true machine addr len nics).nics).nics ≡ nics
unfolding unregister_memory
unregister_memory-register machine addr len nics a l f =
    elim (register_memory-AllOrNone machine addr len nics a l f) [
      | inl (ok, added, none_back) ↦
          ground (arith, unregister_from-Added machine addr len 0 nics _ f added)
      | inr (bad, same, back) ↦ rw same (ground (arith, unregister_from_none addr nics f))
    ]

-- A lookup passes over the old regions that do not contain the target.
find_region_last :
    (target : ℕ) (regions : List MemoryRegionInfo) (r : MemoryRegionInfo)
    → All (λ (s : MemoryRegionInfo). contains s target ≡ false) regions
    → contains r target ≡ true
    → find_region target (regions ++ (r ∷ [])) ≡ some r
unfolding find_region
find_region_last target [] r f e = rw e refl
find_region_last target (s ∷ regions) r f e = rw (f.0, find_region_last target regions r f.1 e) refl

-- The region of NIC `n` once added.
Added-at :
    (machine : Machine) (addr len nic n : ℕ) (before after : List (List MemoryRegionInfo))
    → n < length before
    → Added machine addr len nic before after
    → (mr : IbvMr) × (machine.ibv_reg_mr (nic + n) addr len ≡ some mr)
      × (get_or after n [] ≡ get_or before n [] ++ (region_info machine addr len mr ∷ []))
Added-at machine addr len nic n [] after h e = absurd (omega arith)
Added-at machine addr len nic zero (regions ∷ before) after h (mr, rest, g, e, more) =
    (mr, subst (λ (i : ℕ). machine.ibv_reg_mr i addr len ≡ some mr) (omega arith) g, rw e refl)
Added-at machine addr len nic (suc n) (regions ∷ before) after h (mr, rest, g, e, more) =
    let (m, g', e') = Added-at machine addr len (suc nic) n before rest (omega arith) more in
    (m, subst (λ (i : ℕ). machine.ibv_reg_mr i addr len ≡ some m) (omega arith) g', rw e e')

-- After a registration that succeeds, both keys that NIC `n` looks up for an address inside the new
-- block are those of the MR that NIC `n` granted, if no older region of that NIC contains the
-- address.
pub register_memory-keys :
    (machine : Machine) (addr len : ℕ) (nics : List (List MemoryRegionInfo)) (n target : ℕ)
    → addr ≢ 0
    → len ≢ 0
    → All (Free addr) nics
    → (register_memory true machine addr len nics).code ≡ success
    → n < length nics
    → addr ≤ target
    → target < add64 addr len
    → All (λ (s : MemoryRegionInfo). contains s target ≡ false) (get_or nics n [])
    → let after = (register_memory true machine addr len nics).nics in
      (mr : IbvMr) × (machine.ibv_reg_mr n addr len ≡ some mr)
      × (get_lkey after n target ≡ mr.lkey)
      × (get_rkey after n target ≡ mr.rkey)
unfolding get_lkey get_rkey contains region_info
register_memory-keys machine addr len nics n target a l f ok h low high old =
    elim (register_memory-AllOrNone machine addr len nics a l f) [
      | inr (bad, same, back) ↦ cc
      | inl (good, added, none_back) ↦
          let (mr, g, e) = Added-at machine addr len 0 n nics _ h added in
          let found =
            find_region_last target (get_or nics n []) (region_info machine addr len mr) old
              (ground (arith, low, high)) in
          (
            mr,
            subst (λ (i : ℕ). machine.ibv_reg_mr i addr len ≡ some mr) (omega arith) g,
            rw (get_lkey, e, found) refl,
            rw (get_rkey, e, found) refl,
          )
    ]

-- The clean-up after a failure takes the first region at the address, which is an older one where
-- the block is registered already: the old MR is deregistered, and the new region stays behind.
pub register_memory_duplicate :
    (machine : Machine) (addr len : ℕ) (old : MemoryRegionInfo) (mr : IbvMr)
    → addr ≢ 0
    → len ≢ 0
    → old.addr ≡ addr
    → machine.ibv_reg_mr 0 addr len ≡ some mr
    → machine.ibv_reg_mr 1 addr len ≡ none
    → register_memory true machine addr len ((old ∷ []) ∷ (old ∷ []) ∷ []) ≡ record {
      code = err_memory;
      nics = (region_info machine addr len mr ∷ []) ∷ (old ∷ []) ∷ [];
      deregistered = old.mr ∷ [];
    }
unfolding register_memory register_from remove_region
register_memory_duplicate machine addr len old mr a l e g r = ground (arith, a, l, e, g, r)
