-- ===== src/Published/Laws.antt =====
-- What publishing and taking back do to the map from addresses to entries.
use ucl_mpcomm.Common.{
  length, get_or, ℤ, ℕ, ◌<◌, ◌≡◌, refl, subst, ◌≢◌, ◌⊎◌, inl, inr, true, Option, none, some, List,
  [], ◌∷◌, ◌++◌, arith,
}
use ucl_mpcomm.Errors.{success, err_memory, err_invalid_arg}
use ucl_mpcomm.Memory.{MemoryRegionInfo, get_rkey}
use ucl_mpcomm.Published.{BufferEntry, null_or, node_or_detected, publish_buffer, unpublish_buffer}
use ucl_mpcomm.Published.Entries.{
  entry_at, IsValid, Replaced, update_entry_cases, collect_rkeys_cases, append_entry,
  erase_entry_cases,
}

-- Every NIC has a key for the address, and `keys` lists them.
abbrev pub Keys : List (List MemoryRegionInfo) → ℕ → List ℕ → Type 0
Keys nics addr keys =
    (i : ℕ)
    → i < length nics
    → (get_or keys i 0 ≡ get_rkey nics i addr) × (get_rkey nics i addr ≢ 0)

-- The three ways in which `publishBuffer` ends for a real block: an entry updated, which keeps its
-- old keys; a new entry, with the key of each NIC; and a refusal, for want of a key.
abbrev pub Publishes :
    List (List MemoryRegionInfo)
    → ℕ
    → ℕ
    → ℤ
    → List BufferEntry
    → ℤ × Option (List BufferEntry)
    → Type 0
Publishes nics addr len node before (code, published) =
    ((old : BufferEntry) × (entry_at addr before ≡ some old)
      × (code ≡ success)
      × Replaced addr (some (record old { length = len; numa_node = node })) before
          (null_or published))
    ⊎ (((keys : List ℕ) × (entry_at addr before ≡ none)
          × Keys nics addr keys
          × (code ≡ success)
          × Replaced addr
              (some (record { addr = addr; length = len; numa_node = node; rkeys = keys })) before
              (null_or published))
        ⊎ ((entry_at addr before ≡ none)
            × ((i : ℕ) × (i < length nics) × (get_rkey nics i addr ≡ 0))
            × (code ≡ err_memory)
            × (null_or published ≡ before)))

-- `publishBuffer` of a real block ends in one of those three ways, with no other address touched,
-- and keeps the entries valid.
pub publish_buffer-Publishes :
    (nics : List (List MemoryRegionInfo)) (addr len : ℕ) (node : ℤ)
    (published : Option (List BufferEntry))
    → addr ≢ 0
    → 0 < len
    → IsValid (length nics) (null_or published)
    → let r = publish_buffer true nics addr len node published in
      Publishes nics addr len (node_or_detected nics addr node) (null_or published) r
      × IsValid (length nics) (null_or r.1)
unfolding publish_buffer
publish_buffer-Publishes nics addr len node published a l v =
    let n = node_or_detected nics addr node in
    let es = null_or published in
    let Ends : ℤ × Option (List BufferEntry) → Type 0 =
      λ r. Publishes nics addr len n es r × IsValid (length nics) (null_or r.1) in
    let from : (x : ℤ × Option (List BufferEntry))
        → x ≡ publish_buffer true nics addr len node published
        → Ends x
        → Ends (publish_buffer true nics addr len node published) =
      λ x e t. subst Ends e t in
    elim (update_entry_cases addr len n (length nics) es l v) [
      | inr (old, es', e, at, v', r) ↦
          from (success, some es') (ground (arith, a, l, e)) (inl (old, at, refl, r), v')
      | inl (e, absent) ↦ elim (collect_rkeys_cases nics addr 0 (length nics)) [
        | inl (c, (i, h, z)) ↦
            from (err_memory, some es) (ground (arith, a, l, e, c))
              (
                inr (
                    inr (
                      absent,
                      (i, h, subst (λ (j : ℕ). get_rkey nics j addr ≡ 0) (omega arith) z),
                      refl,
                      refl,
                    )),
                v,
              )
        | inr (keys, c, k, f) ↦
            let (v', r) =
              append_entry (length nics) es
                (record { addr = addr; length = len; numa_node = n; rkeys = keys }) v absent l k in
            from
              (
                success,
                some (
                    es ++ (record { addr = addr; length = len; numa_node = n; rkeys = keys } ∷ [])),
              )
              (ground (arith, a, l, e, c))
              (
                inr (
                    inl (
                      keys,
                      absent,
                      λ i h.
                          subst
                            (λ (j : ℕ).
                              (get_or keys i 0 ≡ get_rkey nics j addr) × (get_rkey nics j addr ≢ 0))
                            (omega arith) (f i h),
                      refl,
                      r,
                    )),
                v',
              )
      ]
    ]

-- `unpublishBuffer` takes the entry at the address out and touches no other, or reports a bad
-- argument, with no change, where there is none; the entries stay valid.
pub unpublish_buffer-Replaced :
    (nics : ℕ) (addr : ℕ) (published : Option (List BufferEntry))
    → IsValid nics (null_or published)
    → let r = unpublish_buffer true addr published in
      IsValid nics (null_or r.1)
      × (((r.0 ≡ success)
            × (entry_at addr (null_or published) ≢ none)
            × Replaced addr none (null_or published) (null_or r.1))
          ⊎ ((r.0 ≡ err_invalid_arg)
              × (r.1 ≡ published)
              × (entry_at addr (null_or published) ≡ none)))
unfolding unpublish_buffer
unpublish_buffer-Replaced nics addr none v = (tt, inr (refl, refl, refl))
unpublish_buffer-Replaced nics addr (some es) v = elim (erase_entry_cases addr nics es v) [
  | inl (a, b) ↦ rw (a, unpublish_buffer) (v, inr (refl, refl, b))
  | inr (es', a, b, v', r) ↦ rw (a, unpublish_buffer) (v', inl (refl, b, r))
]
