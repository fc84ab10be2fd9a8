-- ===== src/Connect/Laws.antt =====
-- Links that a connection uses are complete.
use ucl_mpcomm.Common.{length, All, ℕ, ◌≡◌, ◌⊎◌, inl, inr, true, some, List, []}
use ucl_mpcomm.Worker.Loop.{has}
use ucl_mpcomm.QueuePair.Steps.{IsUp}
use ucl_mpcomm.QueuePair.{RemoteEndpointInfo}
use ucl_mpcomm.Connect.{Network, Links, LinkOutcome, Attempt, ready, refused, fatal}

-- A queue pair of a link was created, brought up towards what the peer answered for it, and is ready
-- to send.
pub record IsReady (net : Network) (l r qp : ℕ) : Type 0 where
  pub qp_idx : ℕ
  pub remote : RemoteEndpointInfo
  pub created : net.create_qp l r qp_idx ≡ some qp
  pub answered : net.exchange l r qp_idx ≡ some remote
  pub is_up : IsUp net.ibv_modify_qp (net.port_of l) remote qp []

-- So many queue pairs, each ready.
abbrev pub Complete : Network → ℕ → ℕ → ℕ → List ℕ → Type 0
Complete net n l r qps = (length qps ≡ n) × All (IsReady net l r) qps

-- The links in the map have all their queue pairs, but for those of one NIC that wait.
abbrev Filed : Network → ℕ → ℕ → List ℕ → Links → Type 0
Filed net n l waiting s =
    (k r : ℕ)
    → has r (s.local_to_remote_nic_map k) ≡ true
    → Complete net n k r (s.qp_map k r) ⊎ ((k ≡ l) × (has r waiting ≡ true))

-- What an attempt that is ready has, and what one that is not leaves out.
abbrev HasAll : Network → ℕ → ℕ → ℕ → Attempt → Type 0
HasAll net n l r (ready qps) = Complete net n l r qps
HasAll net n l r refused = Unit
HasAll net n l r (fatal code) = Unit

abbrev FiledAll : Network → ℕ → ℕ → List ℕ → LinkOutcome → Type 0
FiledAll net n l waiting (inl code) = Unit
FiledAll net n l waiting (inr s) = Filed net n l waiting s

-- Every link in the map has all its queue pairs.
abbrev pub Linked : Network → ℕ → Links → Type 0
Linked net n s =
    (l r : ℕ) → has r (s.local_to_remote_nic_map l) ≡ true → Complete net n l r (s.qp_map l r)

abbrev pub LinkedAll : Network → ℕ → LinkOutcome → Type 0
LinkedAll net n (inl code) = Unit
LinkedAll net n (inr s) = Linked net n s
