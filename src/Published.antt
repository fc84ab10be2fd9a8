-- ===== src/Published.antt =====
-- The published buffers of src/mpcomm.cpp: `publishBuffer`, `unpublishBuffer`, `unpublishAllBuffers`
-- and `getPublishedBufferCount`. The state is `published_buffer_`, `none` for the null pointer.
pub mod Entries
pub mod Laws
mod Tests
use ucl_mpcomm.Common.{
  ◌==◌, if◌then◌else◌, length, ℤ, nonneg, ℕ, zero, suc, Bool, true, false, not, ◌||◌, Option, none,
  some, List, [], ◌∷◌, ◌++◌,
}
use ucl_mpcomm.Errors.{success, err_context, err_memory, err_invalid_arg}
use ucl_mpcomm.Memory.{MemoryRegionInfo, get_rkey, get_numa_node_for_addr}

-- `PublishedBufferEntry`, and as a client receives it `RemoteBufferEntry`.
pub record BufferEntry : Type 0 where
  pub addr : ℕ
  pub length : ℕ
  pub numa_node : ℤ
  pub rkeys : List ℕ

abbrev pub null_or : Option (List BufferEntry) → List BufferEntry
null_or none = []
null_or (some buffers) = buffers

-- `numa_node >= 0 ? numa_node : getNumaNodeForAddr(addr)`
unfoldable pub node_or_detected : List (List MemoryRegionInfo) → ℕ → ℤ → ℤ
node_or_detected nics addr numa_node =
    if nonneg numa_node then numa_node else get_numa_node_for_addr nics addr

-- The loop that looks for an entry to update; `none` where there is none.
unfoldable pub update_entry : ℕ → ℕ → ℤ → List BufferEntry → Option (List BufferEntry)
update_entry addr len node [] = none
update_entry addr len node (e ∷ es) =
    let rest = update_entry addr len node es in
    if e.addr == addr
    then some (record e { length = len; numa_node = node } ∷ es)
    else elim rest [ none ↦ none | some es' ↦ some (e ∷ es') ]

-- The loop over the NICs from `nic` on that collects the keys; `none` at the first missing one.
unfoldable pub collect_rkeys : List (List MemoryRegionInfo) → ℕ → ℕ → ℕ → Option (List ℕ)
collect_rkeys nics addr nic zero = some []
collect_rkeys nics addr nic (suc n) =
    let rest = collect_rkeys nics addr (suc nic) n in
    if get_rkey nics nic addr == 0
    then none
    else elim rest [ none ↦ none | some keys ↦ some (get_rkey nics nic addr ∷ keys) ]

unfoldable pub publish_buffer :
    Bool
    → List (List MemoryRegionInfo)
    → ℕ
    → ℕ
    → ℤ
    → Option (List BufferEntry)
    → ℤ × Option (List BufferEntry)
unfolding node_or_detected update_entry collect_rkeys
publish_buffer initialized nics addr len numa_node published =
    let node = node_or_detected nics addr numa_node in
    let added : ℤ × Option (List BufferEntry) =
      elim (update_entry addr len node (null_or published)) [
        | some updated ↦ (success, some updated)
        | none ↦ elim (collect_rkeys nics addr 0 (length nics)) [
          | none ↦ (err_memory, some (null_or published))
          | some rkeys ↦ (
            success,
            some (
                null_or published
                ++ (record { addr = addr; length = len; numa_node = node; rkeys = rkeys } ∷ [])),
          )
        ]
      ] in
    if not initialized
    then (err_context, published)
    else if (addr == 0) || (len == 0)
    then (err_invalid_arg, published)
    else added

-- The loop that erases the first entry at the address; `none` where there is none.
unfoldable pub erase_entry : ℕ → List BufferEntry → Option (List BufferEntry)
erase_entry addr [] = none
erase_entry addr (e ∷ es) =
    let rest = erase_entry addr es in
    if e.addr == addr then some es else elim rest [ none ↦ none | some es' ↦ some (e ∷ es') ]

unfoldable pub unpublish_buffer :
    Bool → ℕ → Option (List BufferEntry) → ℤ × Option (List BufferEntry)
unfolding erase_entry
unpublish_buffer false addr published = (err_context, published)
unpublish_buffer true addr none = (err_invalid_arg, none)
unpublish_buffer true addr (some buffers) = elim (erase_entry addr buffers) [
  | none ↦ (err_invalid_arg, some buffers)
  | some rest ↦ (success, some rest)
]

unfoldable pub unpublish_all_buffers : Option (List BufferEntry) → Option (List BufferEntry)
unpublish_all_buffers none = none
unpublish_all_buffers (some buffers) = some []

unfoldable pub published_buffer_count : Option (List BufferEntry) → ℕ
published_buffer_count none = 0
published_buffer_count (some buffers) = length buffers
