-- ===== src/Worker/Loop.antt =====
-- `workerThreadLoop` of src/mpcomm.cpp, built without CUDA: a round takes new handles from the
-- queue, posts for all active transfers, polls the NICs, and takes the transfers out that are done.
-- Left out are fault injection, statistics, times and the idle counter. With CUDA, phases 1 and 4 are
-- the same, but for what phase 4 frees, and each round in addition serves the proxy pipelines.
pub mod Drain
pub mod Finish
pub mod Evolve
pub mod Invariant
pub mod Deliver
mod Tests
use ucl_mpcomm.Common.{
  ltb, leb, ◌==◌, if◌then◌else◌, length, replicate, ℤ, eq_ℤ, add64, ℕ, ◌+◌, Bool, true, false, not,
  ◌&&◌, ◌||◌, Option, none, some, List, [], ◌∷◌, ◌++◌,
}
use ucl_mpcomm.Errors.{success}
use ucl_mpcomm.Worker.{
  Progress, ProxyPipeline, WorkCompletion, WorkerState, WorkerSetup, put_progress,
  poll_all_nics_for_worker,
}
use ucl_mpcomm.Worker.Cache.{Fabric, NicConnCache, init_context_cache}
use ucl_mpcomm.Worker.Posting.{PostSetup, post_all, bump_by, stop}

-- The context itself is the transfer with that handle.
pub record ActiveContext : Type 0 where
  pub handle : ℕ
  pub cache : NicConnCache

pub record Loop : Type 0 where
  pub active_contexts : List ActiveContext
  pub pending_pxn_handles : List ℕ
  pub poll_nic_indices : List ℕ
  pub worker : WorkerState

pub record LoopSetup : Type 0 where
  pub posting : PostSetup
  pub worker : WorkerSetup
  pub fabric : Fabric

abbrev pub max_active_pxn_contexts : ℕ
max_active_pxn_contexts = 5

abbrev pub is_active_pxn : Progress → Bool
is_active_pxn ctx = ctx.pxn_enabled && not ctx.finished

abbrev pub holds : (Progress → Bool) → Option Progress → Bool
holds test none = false
holds test (some ctx) = test ctx

-- How many of the active contexts pass a test.
unfoldable pub count_active : (Progress → Bool) → (ℕ → Option Progress) → List ActiveContext → ℕ
count_active test transfers [] = 0
count_active test transfers (ac ∷ acs) =
    (if holds test (transfers ac.handle) then 1 else 0) + count_active test transfers acs

-- What `try_activate_handle` changes.
pub record Draining : Type 0 where
  pub active_contexts : List ActiveContext
  pub active_pxn_count : ℕ
  pub need_rebuild_nics : Bool
  pub transfers : ℕ → Option Progress

-- `none` where the handle is deferred. A handle without transfer is gone.
unfoldable pub try_activate_handle : LoopSetup → ℕ → Draining → Option Draining
try_activate_handle setup h d = elim (d.transfers h) [
  | none ↦ some d
  | some ctx ↦
      if ctx.pxn_enabled && leb max_active_pxn_contexts d.active_pxn_count
      then none
      else some (record {
        active_contexts =
            d.active_contexts
            ++ (record {
              handle = h;
              cache = init_context_cache setup.fabric setup.posting.qps_per_connection ctx;
            }
                ∷ []);
        active_pxn_count =
            if ctx.pxn_enabled then add64 d.active_pxn_count 1 else d.active_pxn_count;
        need_rebuild_nics = true;
        transfers = put_progress d.transfers h (record ctx { submitted = true });
      })
]

-- Tries each handle; those that are deferred are kept in order.
unfoldable pub activate_each : LoopSetup → List ℕ → Draining → List ℕ × Draining
activate_each setup [] d = ([], d)
activate_each setup (h ∷ hs) d = elim (try_activate_handle setup h d) [
  | none ↦ let rest = activate_each setup hs d in (h ∷ rest.0, rest.1)
  | some d' ↦ activate_each setup hs d'
]

abbrev pub has : ℕ → List ℕ → Bool
has x [] = false
has x (y ∷ ys) = (x == y) || has x ys

-- `nic_seen` marks those that are in the list already.
unfoldable pub add_nics : List ℕ → List ℕ → List ℕ
add_nics [] seen = seen
add_nics (nic ∷ nics) seen = add_nics nics (if has nic seen then seen else seen ++ (nic ∷ []))

abbrev pub candidates_of : Option Progress → List ℕ
candidates_of none = []
candidates_of (some ctx) = ctx.candidate_nic_indices

unfoldable pub poll_nics : (ℕ → Option Progress) → List ActiveContext → List ℕ → List ℕ
unfolding add_nics
poll_nics transfers [] seen = seen
poll_nics transfers (ac ∷ acs) seen =
    poll_nics transfers acs (add_nics (candidates_of (transfers ac.handle)) seen)

-- Phase 1. `popped` is what `tryPop` answers until the queue is empty.
unfoldable pub drain : LoopSetup → List ℕ → Loop → Loop
drain setup popped s =
    let d : Draining = record {
      active_contexts = s.active_contexts;
      active_pxn_count = count_active is_active_pxn s.worker.transfers s.active_contexts;
      need_rebuild_nics = false;
      transfers = s.worker.transfers;
    } in
    let retried = activate_each setup s.pending_pxn_handles d in
    let drained = activate_each setup popped retried.1 in
    record {
      active_contexts = drained.1.active_contexts;
      pending_pxn_handles = retried.0 ++ drained.0;
      poll_nic_indices =
          if drained.1.need_rebuild_nics
          then poll_nics drained.1.transfers drained.1.active_contexts []
          else s.poll_nic_indices;
      worker = record s.worker { transfers = drained.1.transfers };
    }

-- The chunks that the pipelines of one transfer hold, added to each NIC's count.
unfoldable pub add_assigned : List ProxyPipeline → List ℕ → List ℕ
unfolding bump_by
add_assigned [] counts = counts
add_assigned (p ∷ ps) counts = add_assigned ps (bump_by counts p.nic_index p.assigned_outstanding)

unfoldable pub global_proxy_assigned : (ℕ → Option Progress) → List ActiveContext → List ℕ → List ℕ
unfolding add_assigned
global_proxy_assigned transfers [] counts = counts
global_proxy_assigned transfers (ac ∷ acs) counts =
    global_proxy_assigned transfers acs (elim (transfers ac.handle) [
      | none ↦ counts
      | some ctx ↦ if is_active_pxn ctx then add_assigned ctx.pxn_proxy_pipelines counts else counts
    ])

abbrev pub max_nics : ℕ
max_nics = 16

abbrev pub at_least_1 : ℕ → ℕ
at_least_1 n = if n == 0 then 1 else n

-- Phase 2, for one transfer after the other.
unfoldable pub post_contexts :
    PostSetup → Fabric → List ActiveContext → List ℕ → WorkerState → WorkerState
post_contexts setup fabric [] g w = w
post_contexts setup fabric (ac ∷ acs) g w = elim (w.transfers ac.handle) [
  | none ↦ post_contexts setup fabric acs g w
  | some ctx ↦
      let p = post_all setup fabric ac.cache g w ctx in
      post_contexts setup fabric acs p.assigned_now
        (record p.worker { transfers = put_progress w.transfers ac.handle p.ctx })
]

unfoldable pub post_round : LoopSetup → Loop → WorkerState
unfolding post_contexts global_proxy_assigned
post_round setup s =
    post_contexts
      (record setup.posting {
        num_active_pxn_transfers =
            at_least_1 (count_active is_active_pxn s.worker.transfers s.active_contexts);
      })
      setup.fabric s.active_contexts
      (global_proxy_assigned s.worker.transfers s.active_contexts (replicate max_nics 0)) s.worker

-- After a failed poll: every active transfer that is not finished fails.
unfoldable pub fail_active : ℤ → List ActiveContext → (ℕ → Option Progress) → ℕ → Option Progress
unfolding put_progress
fail_active code [] transfers = transfers
fail_active code (ac ∷ acs) transfers = fail_active code acs (elim (transfers ac.handle) [
  | none ↦ transfers
  | some ctx ↦ if ctx.finished then transfers else put_progress transfers ac.handle (stop code ctx)
])

-- Phase 4, over the active contexts that are left: those that stay, and the transfers after it.
unfoldable pub remove_completed :
    List ActiveContext → (ℕ → Option Progress) → List ActiveContext × (ℕ → Option Progress)
unfolding put_progress
remove_completed [] transfers = ([], transfers)
remove_completed (ac ∷ acs) transfers = elim (transfers ac.handle) [
  | none ↦ remove_completed acs transfers
  | some ctx ↦
      let kept = remove_completed acs transfers in
      if ctx.finished then kept else elim (leb ctx.total_chunks ctx.total_completed) [
        | true ↦ remove_completed acs (put_progress transfers ac.handle (stop success ctx))
        | false ↦ (ac ∷ kept.0, kept.1)
      ]
]

unfoldable pub finish : Loop → Loop
unfolding remove_completed poll_nics
finish s =
    let left = remove_completed s.active_contexts s.worker.transfers in
    record {
      active_contexts = left.0;
      pending_pxn_handles = s.pending_pxn_handles;
      poll_nic_indices =
          if ltb (length left.0) (length s.active_contexts)
          then poll_nics left.1 left.0 []
          else s.poll_nic_indices;
      worker = record s.worker { transfers = left.1 };
    }

-- One round. `poll` is what the NICs report in it.
unfoldable pub iterate : LoopSetup → List ℕ → (ℕ → Option (List WorkCompletion)) → Loop → Loop
iterate setup popped poll s =
    let s1 = drain setup popped s in
    let posted = post_round setup s1 in
    let polled = poll_all_nics_for_worker setup.worker poll s1.poll_nic_indices posted in
    if (length s1.active_contexts == 0) && (length s1.pending_pxn_handles == 0)
    then s1
    else if eq_ℤ polled.0 success
    then finish (record s1 { worker = polled.1 })
    else record s1 {
      active_contexts = [];
      poll_nic_indices = [];
      worker = record polled.1 {
        transfers = fail_active polled.0 s1.active_contexts polled.1.transfers;
      };
    }
