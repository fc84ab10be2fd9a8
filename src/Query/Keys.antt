-- ===== src/Query/Keys.antt =====
-- The keys that a transfer finds after a query are the ones that the remote host published.
use ucl_mpcomm.Common.{
  ltb, leb, Option-cases, length, get_or, All, add64, ℕ, zero, suc, ◌+◌, ◌<◌, ◌≡◌, refl, sym, ap,
  subst, ◌∙◌, ◌≢◌, inl, inr, Bool, true, false, ◌&&◌, none, some, List, [], ◌∷◌, ◌++◌, arith,
}
use ucl_mpcomm.Errors.{success}
use ucl_mpcomm.Published.{BufferEntry}
use ucl_mpcomm.Query.{
  handle_buffer_query, Endpoint, ConnectionInfo, eq_string, match_rkey, reorder_rkeys, put_entry,
  store_buffers, update_connection, query_remote_buffer, find_remote, get_rkey_for_addr,
}
use ucl_mpcomm.Query.Laws.{IsPublishable, recv_response-handle}

-- The `j`-th GID is the first that equals `gid`.
abbrev pub IsFirst : List ℕ → ℕ → List (List ℕ) → Type 0
IsFirst gid j [] = ⊥
IsFirst gid zero (g ∷ gs) = eq_string g gid ≡ true
IsFirst gid (suc j) (g ∷ gs) = (eq_string g gid ≡ false) × IsFirst gid j gs

match_rkey-IsFirst :
    (rkeys gid : List ℕ) (idx j : ℕ) (gids : List (List ℕ))
    → IsFirst gid j gids
    → match_rkey rkeys gid idx gids ≡ some (get_or rkeys (idx + j) 0)
unfolding match_rkey
match_rkey-IsFirst rkeys gid idx j [] h = absurd h
match_rkey-IsFirst rkeys gid idx zero (g ∷ gs) h =
    rw h (ap (λ (i : ℕ). some (get_or rkeys i 0)) {y = idx + 0} (omega arith))
match_rkey-IsFirst rkeys gid idx (suc j) (g ∷ gs) h = rw h.0 (
    match_rkey-IsFirst rkeys gid (suc idx) j gs h.1
    ∙ ap (λ (i : ℕ). some (get_or rkeys i 0)) {y = idx + suc j} (omega arith))

abbrev pub no_endpoint : Endpoint
no_endpoint = record { gid = []; rkey = 0 }

length-reorder_rkeys :
    (gids : List (List ℕ)) (rkeys : List ℕ) (eps : List Endpoint)
    → length (reorder_rkeys gids rkeys eps) ≡ length eps
unfolding reorder_rkeys
length-reorder_rkeys gids rkeys [] = refl
length-reorder_rkeys gids rkeys (ep ∷ eps) = elim (Option-cases (match_rkey rkeys ep.gid 0 gids)) [
  | inl e ↦ rw (e, reorder_rkeys) (ap suc (length-reorder_rkeys gids rkeys eps))
  | inr (k, e) ↦ rw (e, reorder_rkeys) (ap suc (length-reorder_rkeys gids rkeys eps))
]

-- The key of the `n`-th endpoint is the published key of the NIC with its GID.
reorder_rkeys-at :
    (gids : List (List ℕ)) (rkeys : List ℕ) (eps : List Endpoint) (n j : ℕ)
    → n < length eps
    → IsFirst (get_or eps n no_endpoint).gid j gids
    → get_or (reorder_rkeys gids rkeys eps) n 0 ≡ get_or rkeys j 0
unfolding reorder_rkeys
reorder_rkeys-at gids rkeys [] n j h f = absurd (omega arith)
reorder_rkeys-at gids rkeys (ep ∷ eps) zero j h f =
    rw (match_rkey-IsFirst rkeys ep.gid 0 j gids f, reorder_rkeys)
      (ap (λ (i : ℕ). get_or rkeys i 0) {x = 0 + j} {y = j} (omega arith))
reorder_rkeys-at gids rkeys (ep ∷ eps) (suc n) j h f =
    elim (Option-cases (match_rkey rkeys ep.gid 0 gids)) [
      | inl e ↦ rw (e, reorder_rkeys) (reorder_rkeys-at gids rkeys eps n j (omega arith) f)
      | inr (k, e) ↦ rw (e, reorder_rkeys) (reorder_rkeys-at gids rkeys eps n j (omega arith) f)
    ]

-- The address is in the buffer, by the test of `getRkeyForAddr`.
abbrev pub hits : ℕ → BufferEntry → Bool
hits addr e = leb e.addr addr && ltb addr (add64 e.addr e.length)

find_remote-put_self :
    (addr : ℕ) (e : BufferEntry) (es : List BufferEntry)
    → find_remote addr es ≡ none
    → hits addr e ≡ true
    → find_remote addr (put_entry e es) ≡ some e
unfolding find_remote put_entry
find_remote-put_self addr e [] n h = rw h refl
find_remote-put_self addr e (d ∷ es) n h = ground (arith, n, h, find_remote-put_self addr e es)

find_remote-put_miss :
    (addr : ℕ) (e : BufferEntry) (es : List BufferEntry)
    → find_remote addr es ≡ none
    → hits addr e ≡ false
    → find_remote addr (put_entry e es) ≡ none
unfolding find_remote put_entry
find_remote-put_miss addr e [] n h = rw h refl
find_remote-put_miss addr e (d ∷ es) n h = ground (arith, n, h, find_remote-put_miss addr e es)

find_remote-put_other :
    (addr : ℕ) (e found : BufferEntry) (es : List BufferEntry)
    → find_remote addr es ≡ some found
    → hits addr e ≡ false
    → e.addr ≢ found.addr
    → find_remote addr (put_entry e es) ≡ some found
unfolding find_remote put_entry
find_remote-put_other addr e found [] f h ne = cc
find_remote-put_other addr e found (d ∷ es) f h ne =
    ground (arith, f, h, ne, find_remote-put_other addr e found es)

module _ (gids : List (List ℕ)) (eps : List Endpoint) (addr : ℕ) where
  -- A buffer as `queryRemoteBuffer` stores it.
  abbrev pub stored : BufferEntry → BufferEntry
  stored e = record e { rkeys = reorder_rkeys gids e.rkeys eps }

  -- Another buffer, which begins elsewhere and does not have the address.
  abbrev pub Misses : BufferEntry → BufferEntry → Type 0
  Misses e d = (hits addr d ≡ false) × (d.addr ≢ e.addr)

  store_buffers-after :
      (e : BufferEntry) (after table : List BufferEntry)
      → All (Misses e) after
      → find_remote addr table ≡ some (stored e)
      → find_remote addr (store_buffers gids eps after table) ≡ some (stored e)
  unfolding store_buffers
  store_buffers-after e [] table m f = f
  store_buffers-after e (d ∷ after) table m f =
      store_buffers-after e after (put_entry (stored d) table) m.1
        (find_remote-put_other addr (stored d) (stored e) table f m.0.0 m.0.1)

  store_buffers-find :
      (e : BufferEntry) (before after table : List BufferEntry)
      → All (Misses e) before
      → All (Misses e) after
      → hits addr e ≡ true
      → find_remote addr table ≡ none
      → find_remote addr (store_buffers gids eps (before ++ (e ∷ after)) table) ≡ some (stored e)
  unfolding store_buffers
  store_buffers-find e [] after table b a h n =
      store_buffers-after e after (put_entry (stored e) table) a
        (find_remote-put_self addr (stored e) table n h)
  store_buffers-find e (d ∷ before) after table b a h n =
      store_buffers-find e before after (put_entry (stored d) table) b.1 a h
        (find_remote-put_miss addr (stored d) table n b.0.0)

-- What the `n`-th endpoint's key is for an address once the connection is updated.
get_rkey_for_addr-update :
    (gids : List (List ℕ)) (conn : ConnectionInfo) (first : BufferEntry) (others : List BufferEntry)
    (before : List BufferEntry) (e : BufferEntry) (after : List BufferEntry) (addr n j : ℕ)
    → first ∷ others ≡ before ++ (e ∷ after)
    → All (Misses gids conn.nic_endpoints addr e) before
    → All (Misses gids conn.nic_endpoints addr e) after
    → hits addr e ≡ true
    → n < length conn.nic_endpoints
    → IsFirst (get_or conn.nic_endpoints n no_endpoint).gid j gids
    → get_rkey_for_addr (update_connection gids first others conn) addr n ≡ get_or e.rkeys j 0
unfolding get_rkey_for_addr update_connection find_remote
get_rkey_for_addr-update gids conn first others before e after addr n j split b a h inside f =
    let eps = conn.nic_endpoints in
    let found : find_remote addr (store_buffers gids eps (first ∷ others) [])
        ≡ some (stored gids eps addr e) =
      subst
        (λ (l : List BufferEntry).
          find_remote addr (store_buffers gids eps l []) ≡ some (stored gids eps addr e))
        (sym split) (store_buffers-find gids eps addr e before after [] b a h refl) in
    let in_range : ltb n (length (reorder_rkeys gids e.rkeys eps)) ≡ true =
      ground (arith, inside, length-reorder_rkeys gids e.rkeys eps) in
    rw (get_rkey_for_addr, found, in_range) (reorder_rkeys-at gids e.rkeys eps n j inside f)

-- The host asks, and then looks up the key for an address inside the buffer `e` and for the `n`-th
-- endpoint: it gets the key that the remote host published in `e` for the NIC with that endpoint's
-- GID, if no other published buffer has the address or begins where `e` does.
pub query-get_rkey_for_addr :
    (gids : List (List ℕ)) (before : List BufferEntry) (e : BufferEntry) (after : List BufferEntry)
    (conn : ConnectionInfo) (addr n j : ℕ)
    → IsPublishable gids (before ++ (e ∷ after))
    → All (Misses gids conn.nic_endpoints addr e) before
    → All (Misses gids conn.nic_endpoints addr e) after
    → hits addr e ≡ true
    → n < length conn.nic_endpoints
    → IsFirst (get_or conn.nic_endpoints n no_endpoint).gid j gids
    → let es = before ++ (e ∷ after) in
      (conn' : ConnectionInfo) × (query_remote_buffer true true
          (handle_buffer_query gids (some es))
          (some conn)
        ≡ (success, es, some conn'))
      × (get_rkey_for_addr conn' addr n ≡ get_or e.rkeys j 0)
unfolding query_remote_buffer
query-get_rkey_for_addr gids [] e after conn addr n j p b a h inside f = (
  update_connection gids e after conn,
  rw (query_remote_buffer, recv_response-handle gids (e ∷ after) p) refl,
  get_rkey_for_addr-update gids conn e after [] e after addr n j refl b a h inside f,
)
query-get_rkey_for_addr gids (d ∷ before) e after conn addr n j p b a h inside f = (
  update_connection gids d (before ++ (e ∷ after)) conn,
  rw (query_remote_buffer, recv_response-handle gids (d ∷ before ++ (e ∷ after)) p) refl,
  get_rkey_for_addr-update gids conn d (before ++ (e ∷ after)) (d ∷ before) e after addr n j refl b
      a h inside f,
)
