-- ===== src/Worker/Pipeline/Held.antt =====
-- What a pipeline holds of its proxy buffer, and that it gives it back.
use ucl_mpcomm.Common.{
  length, take, drop, word, add64, sub64, ℕ, zero, suc, ◌+◌, ◌<◌, min, ◌≡◌, refl, sym, ap, ◌∙◌,
  List, [], ◌∷◌, ◌++◌, arith,
}
use ucl_mpcomm.Pxn.ProxyBuffer.{ProxyBuffer, align_256, free}
use ucl_mpcomm.Worker.{ProxyPipeline}
use ucl_mpcomm.Worker.Pipeline.{free_each, drain_inflight, lengths_of, cleanup}

abbrev pub aligned_sum : List ℕ → ℕ
aligned_sum [] = 0
aligned_sum (len ∷ lens) = align_256 len + aligned_sum lens

-- The two counters of the buffer differ by the blocks of these lengths.
abbrev pub Holds : ProxyBuffer → List ℕ → Type 0
Holds b lens = (b.free_offset + aligned_sum lens ≡ b.alloc_offset) × (b.alloc_offset < word)

aligned_sum-append : (xs ys : List ℕ) → aligned_sum (xs ++ ys) ≡ aligned_sum xs + aligned_sum ys
aligned_sum-append [] ys = omega arith
aligned_sum-append (x ∷ xs) ys = omega (arith, aligned_sum-append xs ys)

free_each-Holds :
    (lens others : List ℕ) (b : ProxyBuffer)
    → Holds b (lens ++ others)
    → Holds (free_each lens b) others
unfolding free_each free
free_each-Holds [] others b h = h
free_each-Holds (len ∷ lens) others b (counted, small) =
    free_each-Holds lens others (free len b) (omega (arith, counted, small), small)

take-drop {ℓ} : {A : Type ℓ} (n : ℕ) (xs : List A) → take n xs ++ drop n xs ≡ xs
take-drop zero xs = refl
take-drop (suc n) [] = refl
take-drop (suc n) (x ∷ xs) = ap (λ l. x ∷ l) (take-drop n xs)

length-take {ℓ} : {A : Type ℓ} (n : ℕ) (xs : List A) → length (take n xs) ≡ min n (length xs)
length-take zero xs = omega arith
length-take (suc n) [] = omega arith
length-take (suc n) (x ∷ xs) = omega (arith, length-take n xs)

-- After `n` more completions on the NIC, the `gone` oldest blocks in flight are freed.
pub record Drained (p : ProxyPipeline) (b : ProxyBuffer) (n cur_completed : ℕ) (others : List ℕ)
    (p' : ProxyPipeline) (b' : ProxyBuffer) : Type 0 where
  pub gone : List ℕ
  pub as_many : length gone ≡ min n (length p.rdma_inflight)
  pub oldest : p.rdma_inflight ≡ gone ++ p'.rdma_inflight
  pub copying : p'.copying_chunks ≡ p.copying_chunks
  pub snapshot : p'.rdma_completed_snapshot ≡ cur_completed
  pub held : Holds b' (lengths_of p'.copying_chunks ++ (p'.rdma_inflight ++ others))

drain_inflight-Drained :
    (p : ProxyPipeline) (b : ProxyBuffer) (n : ℕ) (others : List ℕ)
    → p.rdma_completed_snapshot < word
    → n < word
    → Holds b (lengths_of p.copying_chunks ++ (p.rdma_inflight ++ others))
    → let cur_completed = add64 p.rdma_completed_snapshot n in
      let drained = drain_inflight cur_completed p b in
      Drained p b n cur_completed others drained.0 drained.1
unfolding drain_inflight
drain_inflight-Drained p b n others before small h =
    let cur_completed = add64 p.rdma_completed_snapshot n in
    let since : sub64 cur_completed p.rdma_completed_snapshot ≡ n = omega (arith, before, small) in
    let to_free = min (sub64 cur_completed p.rdma_completed_snapshot) (length p.rdma_inflight) in
    let gone = take to_free p.rdma_inflight in
    let left = drop to_free p.rdma_inflight in
    let copied = lengths_of p.copying_chunks in
    let split : aligned_sum p.rdma_inflight ≡ aligned_sum gone + aligned_sum left =
      sym (ap aligned_sum (take-drop to_free p.rdma_inflight)) ∙ aligned_sum-append gone left in
    record {
      gone = gone;
      as_many = omega (arith, length-take to_free p.rdma_inflight, since);
      oldest = sym (take-drop to_free p.rdma_inflight);
      copying = refl;
      snapshot = refl;
      held = free_each-Holds gone (copied ++ (left ++ others)) b (
        omega (
          arith,
          h.0,
          split,
          aligned_sum-append gone (copied ++ (left ++ others)),
          aligned_sum-append copied (left ++ others),
          aligned_sum-append left others,
          aligned_sum-append copied (p.rdma_inflight ++ others),
          aligned_sum-append p.rdma_inflight others,
        ),
        h.1,
      );
    }

-- While other transfers hold `others` of the buffer: after `n` more completions on the NIC, the `n`
-- oldest blocks in flight are freed, or all if there are fewer, and exactly the others stay held, in
-- flight or copied; and at the end of a transfer its pipeline is empty and all that it still held
-- is freed, so that the rest is what the others hold.
pub pipeline-Holds :
    (p : ProxyPipeline) (b : ProxyBuffer) (n : ℕ) (others : List ℕ)
    → p.rdma_completed_snapshot < word
    → n < word
    → Holds b (lengths_of p.copying_chunks ++ (p.rdma_inflight ++ others))
    → let cur_completed = add64 p.rdma_completed_snapshot n in
      let drained = drain_inflight cur_completed p b in
      let cleaned = cleanup p b in
      Drained p b n cur_completed others drained.0 drained.1
      × (cleaned.0.copying_chunks ≡ [])
      × (cleaned.0.rdma_inflight ≡ [])
      × Holds cleaned.1 others
unfolding cleanup
pipeline-Holds p b n others before small h =
    let copied = lengths_of p.copying_chunks in
    (
      drain_inflight-Drained p b n others before small h,
      refl,
      refl,
      free_each-Holds p.rdma_inflight others (free_each copied b)
          (free_each-Holds copied (p.rdma_inflight ++ others) b h),
    )
