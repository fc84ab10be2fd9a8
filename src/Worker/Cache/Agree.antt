-- ===== src/Worker/Cache/Agree.antt =====
-- The cache of connections answers what the look-up without it answers.
use ucl_mpcomm.Common.{
  if◌then◌else◌, lt→ltb, Bool-cases, Option-cases, length, get_or, word, ℕ, zero, suc, ◌+◌, ◌*◌,
  ◌%◌, ◌^◌, ◌≤◌, ◌<◌, ◌≡◌, refl, sym, ap, subst, ◌∙◌, ◌≢◌, inl, inr, Bool, true, Option, none, some,
  List, [], ◌∷◌, arith, ℕ_discrete,
}
use ucl_mpcomm.Common.Bits.{◌<<◌, bit_or-add}
use ucl_mpcomm.Chunks.{ChunkTask}
use ucl_mpcomm.Nics.Laws.{mem}
use ucl_mpcomm.Query.{get_rkey_for_addr}
use ucl_mpcomm.Worker.{Progress}
use ucl_mpcomm.Worker.Cache.{
  Connection, Fabric, lkey_at, remote_nic_of, NicConnInfo, max_qps_per_conn, fill_qps, conn_info,
  cache_key, NicConnCache, get_or_create_qp, cached, put_info, cache_nics, cache_hosts,
  init_context_cache, on_the_fly, resolve,
}
use Prim.Native.Nat.{bit_or}

small_mod : (a : ℕ) → a < word → a % word ≡ a
small_mod a h = omega (arith, h)

cache_key-sum : (h n : ℕ) → h < 2 ^ 48 → n < 2 ^ 16 → cache_key h n ≡ h * 2 ^ 16 + n
unfolding cache_key
cache_key-sum h n hs ns =
    ap (λ x. bit_or x n) (small_mod (h << 16) (omega (arith, hs))) ∙ bit_or-add 16 h n ns

get_or-fill_qps :
    (qp_at : ℕ → Option ℕ) (q i n k : ℕ)
    → k < n
    → i + k < q
    → get_or (fill_qps qp_at q i n) k none ≡ qp_at (i + k)
unfolding fill_qps
get_or-fill_qps qp_at q i zero k h small = absurd (omega (arith, h))
get_or-fill_qps qp_at q i (suc n) zero h small = ground (arith, small)
get_or-fill_qps qp_at q i (suc n) (suc k) h small =
    get_or-fill_qps qp_at q (suc i) n k (omega (arith, h)) (omega (arith, small))
    ∙ ap qp_at (omega arith)

cache_key-injective :
    (h n h' n' : ℕ)
    → h < 2 ^ 48
    → n < 2 ^ 16
    → h' < 2 ^ 48
    → n' < 2 ^ 16
    → cache_key h n ≡ cache_key h' n'
    → (h ≡ h') × (n ≡ n')
cache_key-injective h n h' n' hs ns hs' ns' e =
    let sums : h * 2 ^ 16 + n ≡ h' * 2 ^ 16 + n' =
      sym (cache_key-sum h n hs ns) ∙ e ∙ cache_key-sum h' n' hs' ns' in
    (omega (arith, sums), omega (arith, sums))

abbrev entry_or : Bool → NicConnInfo → Option NicConnInfo → Option NicConnInfo
entry_or here info old = if here then some info else old

-- Host numbers and NIC numbers that fit their parts of a key.
abbrev pub AllBelow : List ℕ → Type 0
AllBelow nics = (nic : ℕ) → mem nic nics ≡ true → nic < 2 ^ 16

module _ (fabric : Fabric) (qpc : ℕ) (ctx : Progress) (h nic : ℕ) (hs : h < 2 ^ 48)
    (ns : nic < 2 ^ 16) where
  cache_nics-other :
      (i : ℕ) (host_id : List ℕ) (conn : Connection) (nics : List ℕ) (cache : NicConnCache)
      → i < 2 ^ 48
      → i ≢ h
      → AllBelow nics
      → cache_nics fabric qpc ctx i host_id conn nics cache (cache_key h nic)
        ≡ cache (cache_key h nic)
  unfolding cache_nics put_info
  cache_nics-other i host_id conn [] cache small other below = refl
  cache_nics-other i host_id conn (n ∷ nics) cache small other below =
      cache_nics-other i host_id conn nics _ small other (λ m e. below m (ground (arith, e)))
      ∙ elim (ℕ_discrete (cache_key h nic) (cache_key i n)) [
        | yes e ↦
            absurd
              (other (sym (cache_key-injective h nic i n hs ns small (below n (ground arith)) e).0))
        | no ne ↦ ground (arith, ne)
      ]

  cache_nics-same :
      (host_id : List ℕ) (conn : Connection) (nics : List ℕ) (cache : NicConnCache)
      → AllBelow nics
      → cache_nics fabric qpc ctx h host_id conn nics cache (cache_key h nic)
        ≡ entry_or
            (mem nic nics)
            (conn_info fabric qpc ctx h host_id conn nic)
            (cache (cache_key h nic))
  unfolding cache_nics put_info
  cache_nics-same host_id conn [] cache below = refl
  cache_nics-same host_id conn (n ∷ nics) cache below =
      cache_nics-same host_id conn nics _ (λ m e. below m (ground (arith, e)))
      ∙ elim (ℕ_discrete (cache_key h nic) (cache_key h n)) [
        | yes e ↦
            let at : nic ≡ n =
              (cache_key-injective h nic h n hs ns hs (below n (ground arith)) e).1 in
            subst
              (λ m.
                entry_or (mem nic nics) (conn_info fabric qpc ctx h host_id conn nic) (
                  put_info cache (cache_key h m) (conn_info fabric qpc ctx h host_id conn m)
                    (cache_key h nic))
                ≡ entry_or (mem nic (m ∷ nics)) (conn_info fabric qpc ctx h host_id conn nic)
                    (cache (cache_key h nic)))
              at (ground arith)
        | no ne ↦ let other : nic ≢ n = λ e. ne (ap (cache_key h) e) in ground (arith, ne, other)
      ]

  cache_host : (i : ℕ) (host_id : List ℕ) (cache : NicConnCache) → NicConnCache
  cache_host i host_id cache = elim (fabric.connections host_id) [
    | none ↦ cache
    | some conn ↦ cache_nics fabric qpc ctx i host_id conn ctx.candidate_nic_indices cache
  ]

  module _ (below : AllBelow ctx.candidate_nic_indices) where
    cache_host-other :
        (i : ℕ) (host_id : List ℕ) (cache : NicConnCache)
        → i < 2 ^ 48
        → i ≢ h
        → cache_host i host_id cache (cache_key h nic) ≡ cache (cache_key h nic)
    unfolding cache_host
    cache_host-other i host_id cache small other =
        elim (Option-cases (fabric.connections host_id)) [
          | inl e ↦ rw (e, cache_host) refl
          | inr (conn, e) ↦
              rw (e, cache_host) (cache_nics-other i host_id conn _ cache small other below)
        ]

    cache_hosts-other :
        (i : ℕ) (hosts : List (List ℕ)) (cache : NicConnCache)
        → i + length hosts < 2 ^ 48
        → h < i
        → cache_hosts fabric qpc ctx i hosts cache (cache_key h nic) ≡ cache (cache_key h nic)
    unfolding cache_hosts cache_host
    cache_hosts-other i [] cache small later = refl
    cache_hosts-other i (host_id ∷ hosts) cache small later =
        cache_hosts-other (suc i) hosts _ (omega (arith, small)) (omega (arith, later))
        ∙ cache_host-other i host_id cache (omega (arith, small)) (omega (arith, later))

    cache_host-start :
        (i : ℕ) (host_id : List ℕ) (cache : NicConnCache)
        → i + 0 ≡ h
        → cache (cache_key h nic) ≡ none
        → cache_host i host_id cache (cache_key h nic)
          ≡ cache_host h host_id (λ key. none) (cache_key h nic)
    unfolding cache_host
    cache_host-start i host_id cache at miss =
        let back : h ≡ i = omega (arith, at) in
        subst
          (λ j.
            cache_host j host_id cache (cache_key h nic)
            ≡ cache_host h host_id (λ key. none) (cache_key h nic))
          back
          (elim (Option-cases (fabric.connections host_id)) [
            | inl e ↦ rw (e, cache_host) miss
            | inr (conn, e) ↦
                rw (e, cache_host)
                  (cache_nics-same host_id conn _ cache below
                    ∙ ap
                        (entry_or (mem nic ctx.candidate_nic_indices)
                          (conn_info fabric qpc ctx h host_id conn nic))
                        miss
                    ∙ sym (cache_nics-same host_id conn _ (λ key. none) below))
          ])

    cache_hosts-at :
        (i : ℕ) (hosts : List (List ℕ)) (cache : NicConnCache) (k : ℕ)
        → i + length hosts < 2 ^ 48
        → i + k ≡ h
        → k < length hosts
        → cache (cache_key h nic) ≡ none
        → cache_hosts fabric qpc ctx i hosts cache (cache_key h nic)
          ≡ cache_host h (get_or hosts k []) (λ key. none) (cache_key h nic)
    unfolding cache_hosts cache_host
    cache_hosts-at i [] cache k small at inside miss = absurd (omega (arith, inside))
    cache_hosts-at i (host_id ∷ hosts) cache zero small at inside miss =
        cache_hosts-other (suc i) hosts _ (omega (arith, small)) (omega (arith, at))
        ∙ cache_host-start i host_id cache at miss
    cache_hosts-at i (host_id ∷ hosts) cache (suc k) small at inside miss =
        cache_hosts-at (suc i) hosts _ k (omega (arith, small)) (omega (arith, at))
          (omega (arith, inside))
          (cache_host-other i host_id cache (omega (arith, small)) (omega (arith, at)) ∙ miss)

  -- The entry of a host of the transfer and a NIC.
  cached_at : List ℕ → Option NicConnInfo
  cached_at host_id = elim (fabric.connections host_id) [
    | none ↦ none
    | some conn ↦
        entry_or (mem nic ctx.candidate_nic_indices) (conn_info fabric qpc ctx h host_id conn nic)
          none
  ]

  init_context_cache-at :
      AllBelow ctx.candidate_nic_indices
      → length ctx.host_list < 2 ^ 48
      → h < length ctx.host_list
      → init_context_cache fabric qpc ctx (cache_key h nic) ≡ cached_at (get_or ctx.host_list h [])
  unfolding init_context_cache cache_host cached_at
  init_context_cache-at below small inside =
      cache_hosts-at below 0 ctx.host_list (λ key. none) h (omega (arith, small)) (omega arith)
        inside refl
      ∙ elim (Option-cases (fabric.connections (get_or ctx.host_list h []))) [
        | inl e ↦ rw (e, cache_host, cached_at) refl
        | inr (conn, e) ↦
            rw (e, cache_host, cached_at)
              (cache_nics-same (get_or ctx.host_list h []) conn ctx.candidate_nic_indices
                (λ key. none) below)
      ]

-- An entry that was found gives what the look-up gives, where the keys of the addresses agree.
cached-conn_info :
    (fabric : Fabric) (qpc : ℕ) (ctx : Progress) (nic qp_index : ℕ) (chunk : ChunkTask)
    (conn : Connection)
    → fabric.connections (get_or ctx.host_list chunk.host_idx []) ≡ some conn
    → qp_index < qpc
    → qpc ≤ max_qps_per_conn
    → lkey_at fabric nic chunk.local_addr ≡ lkey_at fabric nic ctx.chunks.local_addr
    → get_rkey_for_addr conn.info chunk.remote_addr (remote_nic_of conn nic)
      ≡ get_rkey_for_addr conn.info
          (get_or ctx.chunks.remote_addrs chunk.host_idx 0)
          (remote_nic_of conn nic)
    → cached
        (conn_info fabric qpc ctx chunk.host_idx (get_or ctx.host_list chunk.host_idx []) conn nic)
        qp_index
      ≡ on_the_fly fabric ctx nic qp_index chunk
unfolding cached conn_info on_the_fly
cached-conn_info fabric qpc ctx nic qp_index chunk conn e qs q16 same_l same_r =
    let qp_at =
      get_or_create_qp fabric nic (get_or ctx.host_list chunk.host_idx [])
        (remote_nic_of conn nic) in
    let found : get_or (fill_qps qp_at qpc 0 max_qps_per_conn) qp_index none ≡ qp_at qp_index =
      get_or-fill_qps qp_at qpc 0 max_qps_per_conn qp_index (omega (arith, qs, q16))
        (omega (arith, qs))
      ∙ ap qp_at (omega arith) in
    rw (e, on_the_fly, lt→ltb qp_index qpc qs, found, same_l, same_r) refl

-- For a host of the transfer, a NIC and a queue pair within the configured number, at most 16, the
-- cache gives a chunk the keys and the queue pair that are found for its own addresses, if these lie
-- where the start addresses lie, so that the keys are the same.
pub resolve-on_the_fly :
    (fabric : Fabric) (qpc : ℕ) (ctx : Progress) (nic qp_index : ℕ) (chunk : ChunkTask)
    → AllBelow ctx.candidate_nic_indices
    → nic < 2 ^ 16
    → length ctx.host_list < 2 ^ 48
    → chunk.host_idx < length ctx.host_list
    → qp_index < qpc
    → qpc ≤ max_qps_per_conn
    → lkey_at fabric nic chunk.local_addr ≡ lkey_at fabric nic ctx.chunks.local_addr
    → ((conn : Connection)
        → fabric.connections (get_or ctx.host_list chunk.host_idx []) ≡ some conn
        → get_rkey_for_addr conn.info chunk.remote_addr (remote_nic_of conn nic)
          ≡ get_rkey_for_addr conn.info
              (get_or ctx.chunks.remote_addrs chunk.host_idx 0)
              (remote_nic_of conn nic))
    → resolve fabric (init_context_cache fabric qpc ctx) ctx nic qp_index chunk
      ≡ on_the_fly fabric ctx nic qp_index chunk
unfolding resolve cached_at
resolve-on_the_fly fabric qpc ctx nic qp_index chunk below ns few inside qs q16 same_l same_r =
    rw
      (
        init_context_cache-at fabric qpc ctx chunk.host_idx nic (omega (arith, few, inside)) ns
            below few inside,
        resolve,
      )
      (elim (Option-cases (fabric.connections (get_or ctx.host_list chunk.host_idx []))) [
        | inl e ↦ rw (e, cached_at) refl
        | inr (conn, e) ↦ elim (Bool-cases (mem nic ctx.candidate_nic_indices)) [
          | inl known ↦
              rw (e, cached_at, known)
                (cached-conn_info fabric qpc ctx nic qp_index chunk conn e qs q16 same_l
                  (same_r conn e))
          | inr unknown ↦ rw (e, cached_at, unknown) refl
        ]
      ])
