-- ===== src/Query/Tests.antt =====
-- A host with two NICs publishes two buffers, and a host that reaches its second NIC asks.
use ucl_mpcomm.Common.{minus_one, pos, ℕ, ◌≡◌, refl, ◌≢◌, true, some, List, [], ◌∷◌, arith}
use ucl_mpcomm.Errors.{success, err_connection}
use ucl_mpcomm.Published.{BufferEntry}
use ucl_mpcomm.Query.{
  handle_buffer_query, recv_response, ConnectionInfo, query_remote_buffer, get_rkey_for_addr,
}
use ucl_mpcomm.Query.Laws.{IsSendable, IsPublishable, recv_response-handle}
use ucl_mpcomm.Query.Cut.{query_remote_buffer-cut}
use ucl_mpcomm.Query.Keys.{query-get_rkey_for_addr}

abbrev gids : List (List ℕ)
gids = (102 ∷ 101 ∷ []) ∷ (102 ∷ 102 ∷ []) ∷ []

abbrev low : BufferEntry
low = record { addr = 4096; length = 64; numa_node = minus_one; rkeys = 11 ∷ 12 ∷ [] }

abbrev high : BufferEntry
high = record { addr = 8192; length = 64; numa_node = pos 1; rkeys = 21 ∷ 22 ∷ [] }

abbrev connection : ConnectionInfo
connection = record {
  nic_endpoints = record { gid = 102 ∷ 102 ∷ []; rkey = 0 } ∷ [];
  remote_buffers = [];
}

low-IsSendable : IsSendable 2 low
low-IsSendable = record {
  addr = omega arith;
  len = omega arith;
  numa_node = omega arith;
  keys = refl;
  each = (omega arith, (omega arith, tt));
}

high-IsSendable : IsSendable 2 high
high-IsSendable = record {
  addr = omega arith;
  len = omega arith;
  numa_node = omega arith;
  keys = refl;
  each = (omega arith, (omega arith, tt));
}

both-IsPublishable : IsPublishable gids (low ∷ high ∷ [])
both-IsPublishable = record {
  strings = (
    ((omega arith, (omega arith, tt)), omega arith),
    (((omega arith, (omega arith, tt)), omega arith), tt),
  );
  nics = omega arith;
  buffers = omega arith;
  some_buffer = omega arith;
  entries = (low-IsSendable, (high-IsSendable, tt));
}

recv_response-handle_example :
    recv_response (handle_buffer_query gids (some (low ∷ high ∷ [])))
    ≡ some ((gids, low ∷ high ∷ []), [])
recv_response-handle_example = recv_response-handle gids (low ∷ high ∷ []) both-IsPublishable

response_some : handle_buffer_query gids (some (low ∷ high ∷ [])) ≢ []
unfolding handle_buffer_query
response_some e = cc

query_remote_buffer-cut_example :
    query_remote_buffer true true [] (some connection) ≡ (err_connection, [], some connection)
query_remote_buffer-cut_example =
    query_remote_buffer-cut gids (low ∷ high ∷ []) []
      (handle_buffer_query gids (some (low ∷ high ∷ []))) (some connection) both-IsPublishable refl
      response_some

query-get_rkey_for_addr_example :
    (conn' : ConnectionInfo) × (query_remote_buffer true true
        (handle_buffer_query gids (some (low ∷ high ∷ [])))
        (some connection)
      ≡ (success, low ∷ high ∷ [], some conn'))
    × (get_rkey_for_addr conn' 8200 0 ≡ 22)
query-get_rkey_for_addr_example =
    query-get_rkey_for_addr gids (low ∷ []) high [] connection 8200 0 1 both-IsPublishable
      ((refl, λ e. omega arith), tt) tt refl (omega arith) (refl, refl)
