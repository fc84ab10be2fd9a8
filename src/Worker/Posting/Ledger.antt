-- ===== src/Worker/Posting/Ledger.antt =====
-- Flow control against what was really posted and completed: the requests that went out and the ids
-- that came back are listed, apart from the worker's own counters.
use ucl_mpcomm.Common.{
  ◌==◌, if◌then◌else◌, length, get_or, word, ℕ, ◌+◌, ◌%◌, ◌≤◌, ◌<◌, ◌≡◌, true, ◌&&◌, List, [], ◌∷◌,
  ◌++◌,
}
use ucl_mpcomm.Nics.Laws.{mem}
use ucl_mpcomm.WrId.{decode_nic, decode_qp}
use ucl_mpcomm.Worker.{Progress, WorkCompletion, WorkerState, WorkerSetup, complete}
use ucl_mpcomm.Worker.Cache.{Fabric, NicConnCache}
use ucl_mpcomm.Worker.Posting.{
  SendWr, PostSetup, Round, assigned, max_outstanding_per_nic, post_all,
}

-- How many of the ids name a NIC, and a queue pair of it.
abbrev pub count_nic : ℕ → List ℕ → ℕ
count_nic k [] = 0
count_nic k (id ∷ ids) = (if decode_nic id == k then 1 else 0) + count_nic k ids

abbrev pub count_qp : ℕ → ℕ → List ℕ → ℕ
count_qp k l [] = 0
count_qp k l (id ∷ ids) =
    (if (decode_nic id == k) && (decode_qp id == l) then 1 else 0) + count_qp k l ids

abbrev pub ids_of : List SendWr → List ℕ
ids_of [] = []
ids_of (wr ∷ wrs) = wr.wr_id ∷ ids_of wrs

-- The counters of a NIC and of one of its queue pairs show these numbers of requests, sent and done,
-- modulo 2^64, and no more are out than the limits.
pub record Tracked (setup : PostSetup) (w : WorkerState) (k l sent done qp_sent qp_done : ℕ)
    : Type 0 where
  pub nic_in : k < length w.worker_nic_posted
  pub row_in : k < length w.worker_nic_qp_posted
  pub qp_in : l < length (get_or w.worker_nic_qp_posted k [])
  pub nic_in_completed : k < length w.worker_nic_completed
  pub row_in_completed : k < length w.worker_nic_qp_completed
  pub qp_in_completed : l < length (get_or w.worker_nic_qp_completed k [])
  pub nic_posted : get_or w.worker_nic_posted k 0 ≡ sent % word
  pub nic_completed : get_or w.worker_nic_completed k 0 ≡ done % word
  pub qp_posted : get_or (get_or w.worker_nic_qp_posted k []) l 0 ≡ qp_sent % word
  pub qp_completed : get_or (get_or w.worker_nic_qp_completed k []) l 0 ≡ qp_done % word
  pub order : done ≤ sent
  pub limit : sent ≤ done + max_outstanding_per_nic setup
  pub qp_order : qp_done ≤ qp_sent
  pub qp_limit : qp_sent ≤ qp_done + setup.max_outstanding_per_qp

candidates_of_round : Progress → Round → List ℕ
candidates_of_round ctx (assigned g' ctx') = ctx'.candidate_nic_indices
candidates_of_round ctx _ = ctx.candidate_nic_indices

-- Every candidate NIC of a transfer exists.
abbrev pub CandidatesExist : ℕ → Progress → Type 0
CandidatesExist num_nics ctx = (nic : ℕ) → mem nic ctx.candidate_nic_indices ≡ true → nic < num_nics

-- What happens at a worker, with the ids of the requests that went out and of those that came back:
-- its counters start at zero; it posts for a transfer; or a request that is out completes.
pub data Reach (setup : PostSetup) (wset : WorkerSetup) (fabric : Fabric)
    : WorkerState → List ℕ → List ℕ → Type 0 where
  start :
      (w : WorkerState)
      → ((k l : ℕ) → k < wset.num_nics → l < wset.qps_per_connection → Tracked setup w k l 0 0 0 0)
      → Reach setup wset fabric w [] []
  post :
      (w : WorkerState) (sent done : List ℕ) (cache : NicConnCache) (g : List ℕ) (ctx : Progress)
      → CandidatesExist wset.num_nics ctx
      → Reach setup wset fabric w sent done
      → Reach setup wset fabric
          (post_all setup fabric cache g w ctx).worker
          (ids_of (post_all setup fabric cache g w ctx).requests ++ sent)
          done
  report :
      (w : WorkerState) (sent done : List ℕ) (polled : ℕ) (wc : WorkCompletion)
      → count_nic (decode_nic wc.wr_id) done < count_nic (decode_nic wc.wr_id) sent
      → count_qp (decode_nic wc.wr_id) (decode_qp wc.wr_id) done
        < count_qp (decode_nic wc.wr_id) (decode_qp wc.wr_id) sent
      → Reach setup wset fabric w sent done
      → Reach setup wset fabric (complete wset polled wc w) sent (wc.wr_id ∷ done)
