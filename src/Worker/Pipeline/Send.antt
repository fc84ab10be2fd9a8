-- ===== src/Worker/Pipeline/Send.antt =====
-- Sending the copied chunks of a pipeline.
use ucl_mpcomm.Common.{
  ℕ, ◌%◌, ◌^◌, ◌≤◌, ◌≡◌, ◌⊎◌, Bool, true, false, Option, none, List, [], ◌∷◌, ◌++◌,
}
use ucl_mpcomm.Worker.{CopyingChunk}
use ucl_mpcomm.WrId.{decode_handle, decode_chunk}
use ucl_mpcomm.Worker.Cache.{NicConnCache, cache_key}
use ucl_mpcomm.Chunks.{ChunkTable, get_chunk}
use ucl_mpcomm.Worker.Posting.{
  SendWr, rdma_write, PostSetup, max_outstanding_per_nic, nic_outstanding, select_qp,
}
use ucl_mpcomm.Worker.Posting.Flow.{WithinLimits}
use ucl_mpcomm.Worker.Pipeline.{is_copied, Sending, lengths_of}

-- The request that moves a chunk which has been copied.
pub record IsProxyRequest (flag_set : ℕ → Bool) (table : ChunkTable) (handle : ℕ)
    (cc : CopyingChunk) (wr : SendWr) : Type 0 where
  pub copied : is_copied flag_set cc ≡ true
  pub direction : wr.opcode ≡ rdma_write
  pub from : wr.addr ≡ cc.proxy_addr
  pub to : wr.remote_addr ≡ (get_chunk table cc.chunk_idx).remote_addr
  pub size : wr.length ≡ (get_chunk table cc.chunk_idx).length % 2 ^ 32
  pub owner : decode_handle wr.wr_id ≡ handle % 2 ^ 16
  pub chunk : decode_chunk wr.wr_id ≡ cc.chunk_idx % 2 ^ 32

-- One request for each chunk, in order.
abbrev pub AreProxyRequests : (ℕ → Bool) → ChunkTable → ℕ → List CopyingChunk → List SendWr → Type 0
AreProxyRequests flag_set table handle [] [] = Unit
AreProxyRequests flag_set table handle [] (wr ∷ wrs) = ⊥
AreProxyRequests flag_set table handle (cc ∷ ccs) [] = ⊥
AreProxyRequests flag_set table handle (cc ∷ ccs) (wr ∷ wrs) =
    IsProxyRequest flag_set table handle cc wr × AreProxyRequests flag_set table handle ccs wrs

abbrev pub flags_of : List CopyingChunk → List (Option ℕ)
flags_of [] = []
flags_of (cc ∷ ccs) = cc.copy_done_flag ∷ flags_of ccs

-- Why the next chunk of a pipeline has to wait: its copy is not done, its NIC or all queue pairs of
-- that are full, or no connection is known.
abbrev pub Blocked : PostSetup → NicConnCache → (ℕ → Bool) → ℕ → Sending → CopyingChunk → Type 0
Blocked setup cache flag_set nic s cc =
    (is_copied flag_set cc ≡ false)
    ⊎ ((max_outstanding_per_nic setup ≤ nic_outstanding s.worker nic)
        ⊎ ((select_qp setup s.worker nic ≡ none)
            ⊎ (cache (cache_key (get_chunk s.ctx.chunks cc.chunk_idx).host_idx nic) ≡ none)))

-- Why sending ends: nothing is left, the transfer has failed, or the next chunk has to wait.
abbrev pub Stopped : PostSetup → NicConnCache → (ℕ → Bool) → ℕ → Sending → Type 0
Stopped setup cache flag_set nic s =
    (s.copying ≡ [])
    ⊎ ((s.ctx.finished ≡ true)
        ⊎ ((cc : CopyingChunk) × (ccs : List CopyingChunk) × (s.copying ≡ cc ∷ ccs)
            × Blocked setup cache flag_set nic s cc))

-- The chunks `sent` left the front of the pipeline, each as a request.
pub record Kept (setup : PostSetup) (cache : NicConnCache) (flag_set : ℕ → Bool) (nic : ℕ)
    (s s' : Sending) : Type 0 where
  pub sent : List CopyingChunk
  pub new : List SendWr
  pub stopped : Stopped setup cache flag_set nic s'
  pub limits : WithinLimits setup s'.worker
  pub front : s.copying ≡ sent ++ s'.copying
  pub inflight : s'.inflight ≡ s.inflight ++ lengths_of sent
  pub requests : s'.requests ≡ s.requests ++ new
  pub recycled : s'.recycled ≡ s.recycled ++ flags_of sent
  pub moved : AreProxyRequests flag_set s.ctx.chunks s.ctx.handle sent new
