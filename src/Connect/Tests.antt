-- ===== src/Connect/Tests.antt =====
-- Hosts with a NIC "m0" each, and a peer that answers.
use ucl_mpcomm.Common.{ℕ, ◌+◌, inl, inr, true, some, List, [], ◌∷◌}
use ucl_mpcomm.Connect.{Network, Links, LinkOutcome, link_hosts}

abbrev network : Network
network = record {
  port_of = λ nic. record { port = 1; gid_index = 3 };
  create_qp = λ l r i. some (20 + i);
  ibv_modify_qp = λ qp done attr. true;
  exchange = λ l r i. some (record { gid = []; lid = 0; qp_num = 30 });
  send_status = λ l r i. true;
}

abbrev names : List (List ℕ)
names = (109 ∷ 48 ∷ []) ∷ []

abbrev outcome : LinkOutcome
outcome = link_hosts network 2 3 names names (λ l r. [])

abbrev links_of : LinkOutcome → Links
links_of (inr s) = s
links_of (inl (code, s)) = s
