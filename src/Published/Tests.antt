-- ===== src/Published/Tests.antt =====
-- One NIC with a registered block, published, updated and taken back.
use ucl_mpcomm.Common.{minus_one, pos, ◌≡◌, refl, true, false, none, some, List, [], ◌∷◌, arith}
use ucl_mpcomm.Errors.{success}
use ucl_mpcomm.Memory.{MemoryRegionInfo, get_rkey, get_numa_node_for_addr}
use ucl_mpcomm.Published.{BufferEntry, null_or, node_or_detected, publish_buffer}
use ucl_mpcomm.Published.Entries.{IsValid}
use ucl_mpcomm.Published.Laws.{Publishes, publish_buffer-Publishes}

abbrev one_nic : List (List MemoryRegionInfo)
one_nic =
    (record {
      addr = 4096;
      length = 64;
      mr = record { id = 0; lkey = 10; rkey = 20 };
      lkey = 10;
      rkey = 20;
      numa_node = pos 1;
      is_gpu = false;
      gpu_device_id = minus_one;
      pcie_affine_nic_indices = [];
    }
      ∷ [])
    ∷ []

abbrev entry : BufferEntry
entry = record { addr = 4096; length = 64; numa_node = pos 1; rkeys = 20 ∷ [] }

published : publish_buffer true one_nic 4096 64 minus_one none ≡ (success, some (entry ∷ []))
unfolding publish_buffer get_rkey get_numa_node_for_addr
published = refl

publish_buffer-Publishes_example :
    let r = publish_buffer true one_nic 4096 32 (pos 2) (some (entry ∷ [])) in
    Publishes one_nic 4096 32 (node_or_detected one_nic 4096 (pos 2)) (entry ∷ []) r
    × IsValid 1 (null_or r.1)
publish_buffer-Publishes_example =
    publish_buffer-Publishes one_nic 4096 32 (pos 2) (some (entry ∷ [])) (λ e. omega arith)
      (omega arith) (refl, omega arith, refl, tt)
