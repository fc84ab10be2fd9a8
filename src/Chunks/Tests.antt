-- ===== src/Chunks/Tests.antt =====
-- A transfer to three hosts, one of them with nothing to send, cut into chunks of four bytes.
use ucl_mpcomm.Common.{get_or, word, ℕ, zero, suc, ◌+◌, ◌≤◌, ◌<◌, ◌≡◌, refl, List, [], ◌∷◌, arith}
use ucl_mpcomm.Chunks.{scatter, broadcast, layout, get_chunk, chunk_table}
use ucl_mpcomm.Chunks.Spec.{Fits, chunks_before}
use ucl_mpcomm.Chunks.Search.{IsMonotone}
use ucl_mpcomm.Chunks.Plan.{Placed, table, chunk_at, get_chunk_at}
use ucl_mpcomm.Chunks.Tiling.{InBounds, get_chunk-InBounds, sum_below, bytes_total}

abbrev lens : List ℕ
lens = 10 ∷ 0 ∷ 5 ∷ []

abbrev remotes : List ℕ
remotes = 1000 ∷ 2000 ∷ 3000 ∷ []

program : Unit {0}
unfolding get_chunk chunk_table
program = tt

last_chunk :
    get_chunk (table scatter 4 100 remotes lens) 4
    ≡ record { host_idx = 2; local_addr = 114; remote_addr = 3004; length = 1 }
unfolding program
last_chunk = refl

broadcast_chunk :
    get_chunk (table broadcast 4 100 remotes lens) 4
    ≡ record { host_idx = 2; local_addr = 104; remote_addr = 3004; length = 1 }
unfolding program
broadcast_chunk = refl

remotes_fit : (i : ℕ) → i < 3 → get_or remotes i 0 + get_or lens i 0 ≤ word
remotes_fit zero h = omega arith
remotes_fit (suc zero) h = omega arith
remotes_fit (suc (suc zero)) h = omega arith
remotes_fit (suc (suc (suc i))) h = absurd (omega arith)

lens-Fits : Fits 4 lens
lens-Fits = record { positive = omega arith; each = omega arith; bytes = omega arith }

lens-Placed : Placed 4 100 remotes lens
lens-Placed = record {
  fits = lens-Fits;
  hosts = omega arith;
  locals = omega arith;
  remotes_fit = remotes_fit;
}

get_chunk_at_example :
    get_chunk (table scatter 4 100 remotes lens) (chunks_before 4 lens 2 + 1)
    ≡ chunk_at scatter 4 100 remotes lens 2 1
get_chunk_at_example =
    get_chunk_at scatter 4 100 remotes lens lens-Placed 2 1 (omega arith) (omega arith)

get_chunk-InBounds_example :
    InBounds scatter 4 100 remotes lens lens-Placed (get_chunk (table scatter 4 100 remotes lens) 4)
unfolding program
get_chunk-InBounds_example =
    get_chunk-InBounds scatter 4 100 remotes lens lens-Placed 4 (omega arith)

bytes_total_example :
    sum_below
      (layout scatter 4 lens).total_chunks
      (λ j. (get_chunk (table scatter 4 100 remotes lens) j).length)
    ≡ 15
bytes_total_example = bytes_total scatter 4 100 remotes lens lens-Placed

starts-IsMonotone : IsMonotone (0 ∷ 3 ∷ 3 ∷ [])
starts-IsMonotone zero zero p q = omega arith
starts-IsMonotone zero (suc j) p q = omega arith
starts-IsMonotone (suc i) zero p q = absurd (omega arith)
starts-IsMonotone (suc zero) (suc zero) p q = omega arith
starts-IsMonotone (suc zero) (suc (suc zero)) p q = omega arith
starts-IsMonotone (suc (suc i)) (suc zero) p q = absurd (omega arith)
starts-IsMonotone (suc (suc zero)) (suc (suc zero)) p q = omega arith
starts-IsMonotone (suc i) (suc (suc (suc j))) p q = absurd (omega arith)
starts-IsMonotone (suc (suc (suc i))) (suc (suc zero)) p q = absurd (omega arith)
