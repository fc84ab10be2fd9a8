-- ===== src/Nics/Tests.antt =====
-- Two NICs on one node, the first of them in quarantine.
use ucl_mpcomm.Common.{pos, ℕ, ◌<◌, ◌≡◌, refl, true, false, List, [], ◌∷◌, arith}
use ucl_mpcomm.Nics.{NicTopologyInfo, get_local_nic_indices_for_numa, select_candidates}
use ucl_mpcomm.Nics.Laws.{mem, unfiltered, Filtered, select_candidates-Filtered}

abbrev names : List (List ℕ)
names = (97 ∷ []) ∷ (98 ∷ []) ∷ []

abbrev topology : List NicTopologyInfo
topology =
    record { nic_name = 97 ∷ []; numa_node = pos 1 }
    ∷ record { nic_name = 98 ∷ []; numa_node = pos 1 }
    ∷ []

below : (x : ℕ) → mem x (0 ∷ 1 ∷ []) ≡ true → x < 2
below x m = ground (arith, m)

healthy_only : select_candidates [] (0 ∷ 1 ∷ []) 2 (true ∷ false ∷ []) ≡ 1 ∷ []
unfolding select_candidates
healthy_only = refl

select_candidates-Filtered_example :
    let kept = select_candidates [] (0 ∷ 1 ∷ []) 2 (true ∷ false ∷ []) in
    Filtered (true ∷ false ∷ []) (unfiltered [] (0 ∷ 1 ∷ []) 2) kept
    × ((x : ℕ) → mem x kept ≡ true → x < 2)
select_candidates-Filtered_example =
    select_candidates-Filtered [] (0 ∷ 1 ∷ []) 2 true (false ∷ []) (omega arith) (λ x m. cc) below

listed : mem 1 (get_local_nic_indices_for_numa topology names (pos 1)) ≡ true
unfolding get_local_nic_indices_for_numa
listed = refl
