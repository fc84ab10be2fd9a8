-- ===== src/Published/Entries.antt =====
-- The loops over the published entries, as changes of a map from addresses to entries.
use ucl_mpcomm.Common.{
  ◌==◌, if◌then◌else◌, length, get_or, ℤ, ℕ, zero, suc, ◌+◌, ◌<◌, ◌≡◌, refl, subst, ◌∙◌, ◌≢◌, ◌⊎◌,
  inl, inr, Option, none, some, List, [], ◌∷◌, ◌++◌, arith, ℕ_discrete,
}
use ucl_mpcomm.Memory.{MemoryRegionInfo, get_rkey}
use ucl_mpcomm.Published.{BufferEntry, update_entry, collect_rkeys, erase_entry}

-- The map: the first entry at an address.
abbrev pub entry_at : ℕ → List BufferEntry → Option BufferEntry
entry_at addr [] = none
entry_at addr (e ∷ es) = if e.addr == addr then some e else entry_at addr es

-- No two entries have one address, none is empty, and each has a key for every NIC.
abbrev pub IsValid : ℕ → List BufferEntry → Type 0
IsValid nics [] = Unit {0}
IsValid nics (e ∷ es) =
    (entry_at e.addr es ≡ none) × (0 < e.length) × (length e.rkeys ≡ nics) × IsValid nics es

-- What a loop over the entries that changes the one at `addr` into `new`, or drops it, leaves.
abbrev pub Replaced : ℕ → Option BufferEntry → List BufferEntry → List BufferEntry → Type 0
Replaced addr new before after =
    (entry_at addr after ≡ new)
    × ((other : ℕ) → other ≢ addr → entry_at other after ≡ entry_at other before)

pub update_entry_cases :
    (addr len : ℕ) (node : ℤ) (n : ℕ) (es : List BufferEntry)
    → 0 < len
    → IsValid n es
    → ((update_entry addr len node es ≡ none) × (entry_at addr es ≡ none))
      ⊎ ((old : BufferEntry) × (es' : List BufferEntry) × (update_entry addr len node es ≡ some es')
          × (entry_at addr es ≡ some old)
          × IsValid n es'
          × Replaced addr (some (record old { length = len; numa_node = node })) es es')
unfolding update_entry
update_entry_cases addr len node n [] p v = inl (refl, refl)
update_entry_cases addr len node n (e ∷ es) p v = elim (ℕ_discrete e.addr addr) [
  | yes here ↦ inr (
    e,
    record e { length = len; numa_node = node } ∷ es,
    ground (arith, here),
    ground (arith, here),
    (v.0, p, v.2, v.3),
    (ground (arith, here), λ other ne. ground (arith, here)),
  )
  | no past ↦ elim (update_entry_cases addr len node n es p v.3) [
    | inl (a, b) ↦ inl (ground (arith, past, a), ground (arith, past, b))
    | inr (old, es', a, b, v', (r, s)) ↦ inr (
      old,
      e ∷ es',
      ground (arith, past, a),
      ground (arith, past, b),
      (s e.addr past ∙ v.0, v.1, v.2, v'),
      (ground (arith, past, r), λ other ne. ground (arith, past, s other ne)),
    )
  ]
]

-- One key more in front.
keys_cons :
    (key : ℕ → ℕ) (nic n : ℕ) (keys : List ℕ)
    → ((i : ℕ) → i < n → (get_or keys i 0 ≡ key (suc nic + i)) × (key (suc nic + i) ≢ 0))
    → key nic ≢ 0
    → (i : ℕ) → i < suc n
    → (get_or (key nic ∷ keys) i 0 ≡ key (nic + i)) × (key (nic + i) ≢ 0)
keys_cons key nic n keys f k zero h =
    subst (λ (j : ℕ). (key nic ≡ key j) × (key j ≢ 0)) (omega arith) (refl, k)
keys_cons key nic n keys f k (suc i) h =
    subst (λ (j : ℕ). (get_or keys i 0 ≡ key j) × (key j ≢ 0)) (omega arith) (f i (omega arith))

pub collect_rkeys_cases :
    (nics : List (List MemoryRegionInfo)) (addr nic n : ℕ)
    → ((collect_rkeys nics addr nic n ≡ none)
        × ((i : ℕ) × (i < n) × (get_rkey nics (nic + i) addr ≡ 0)))
      ⊎ ((keys : List ℕ) × (collect_rkeys nics addr nic n ≡ some keys)
          × (length keys ≡ n)
          × ((i : ℕ)
              → i < n
              → (get_or keys i 0 ≡ get_rkey nics (nic + i) addr)
                × (get_rkey nics (nic + i) addr ≢ 0)))
unfolding collect_rkeys
collect_rkeys_cases nics addr nic zero = inr ([], refl, refl, λ i h. absurd (omega arith))
collect_rkeys_cases nics addr nic (suc n) = elim (ℕ_discrete (get_rkey nics nic addr) 0) [
  | yes missing ↦ inl (
    ground (arith, missing),
    (0, omega arith, subst (λ (j : ℕ). get_rkey nics j addr ≡ 0) (omega arith) missing),
  )
  | no key ↦ elim (collect_rkeys_cases nics addr (suc nic) n) [
    | inl (e, (i, h, z)) ↦ inl (
      ground (arith, key, e),
      (suc i, omega arith, subst (λ (j : ℕ). get_rkey nics j addr ≡ 0) (omega arith) z),
    )
    | inr (keys, e, l, f) ↦ inr (
      get_rkey nics nic addr ∷ keys,
      ground (arith, key, e),
      omega (arith, l),
      keys_cons (λ j. get_rkey nics j addr) nic n keys f key,
    )
  ]
]

pub append_entry :
    (n : ℕ) (es : List BufferEntry) (e : BufferEntry)
    → IsValid n es
    → entry_at e.addr es ≡ none
    → 0 < e.length
    → length e.rkeys ≡ n
    → IsValid n (es ++ (e ∷ [])) × Replaced e.addr (some e) es (es ++ (e ∷ []))
append_entry n [] e v a p l = ((refl, p, l, tt), (ground arith, λ other ne. ground arith))
append_entry n (d ∷ es) e v a p l = elim (ℕ_discrete d.addr e.addr) [
  | yes same ↦ absurd (ground (arith, same, a))
  | no ne ↦
      let (v', (r, s)) = append_entry n es e v.3 (ground (arith, ne, a)) p l in
      (
        (s d.addr ne ∙ v.0, v.1, v.2, v'),
        (ground (arith, ne, r), λ other o. ground (arith, s other o)),
      )
]

pub erase_entry_cases :
    (addr n : ℕ) (es : List BufferEntry)
    → IsValid n es
    → ((erase_entry addr es ≡ none) × (entry_at addr es ≡ none))
      ⊎ ((es' : List BufferEntry) × (erase_entry addr es ≡ some es')
          × (entry_at addr es ≢ none)
          × IsValid n es'
          × Replaced addr none es es')
unfolding erase_entry
erase_entry_cases addr n [] v = inl (refl, refl)
erase_entry_cases addr n (e ∷ es) v = elim (ℕ_discrete e.addr addr) [
  | yes here ↦ inr (
    es,
    ground (arith, here),
    λ gone. ground (arith, here, gone),
    v.3,
    (subst (λ (a : ℕ). entry_at a es ≡ none) here v.0, λ other ne. ground (arith, here)),
  )
  | no past ↦ elim (erase_entry_cases addr n es v.3) [
    | inl (a, b) ↦ inl (ground (arith, past, a), ground (arith, past, b))
    | inr (es', a, b, v', (r, s)) ↦ inr (
      e ∷ es',
      ground (arith, past, a),
      λ gone. b (ground (arith, past, gone)),
      (s e.addr past ∙ v.0, v.1, v.2, v'),
      (ground (arith, past, r), λ other ne. ground (arith, past, s other ne)),
    )
  ]
]
