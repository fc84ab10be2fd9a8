-- ===== src/Worker/Posting/Sequence.antt =====
-- The posting loop sends the chunks of a transfer in order, each once, and stops for a reason.
use ucl_mpcomm.Common.{
  ltb, ltb→lt, ltb→ge, Bool-cases, length, word, add64, ℕ, zero, suc, ◌+◌, ◌%◌, ◌^◌, ◌≤◌, ◌<◌, ◌≡◌,
  refl, sym, ap, subst, ◌∙◌, ◌≢◌, ◌⊎◌, inl, inr, true, false, List, [], ◌∷◌, arith,
}
use ucl_mpcomm.Chunks.{get_chunk}
use ucl_mpcomm.WrId.{decode_handle, decode_chunk}
use ucl_mpcomm.WrId.Laws.{decode-encode}
use ucl_mpcomm.Worker.{Progress, WorkerState}
use ucl_mpcomm.Worker.Cache.{Fabric, NicConnCache, Resolved}
use ucl_mpcomm.Worker.Posting.{
  SendWr, opcode_of, PostSetup, Round, nic_full, qp_full, assigned, failed, posted, send_wr,
  count_chunk, post_chunk, Posted, after_round, post_loop, post_all,
}
use ucl_mpcomm.Worker.Posting.Rounds.{
  View, Sent, IsBestNic, NicsFull, QpsFull, Refused-stop, post_chunk-View,
}

-- A request that moves chunk `i` of a transfer.
pub record IsRequest (ctx : Progress) (i : ℕ) (wr : SendWr) : Type 0 where
  pub from : wr.addr ≡ (get_chunk ctx.chunks i).local_addr
  pub to : wr.remote_addr ≡ (get_chunk ctx.chunks i).remote_addr
  pub size : wr.length ≡ (get_chunk ctx.chunks i).length % 2 ^ 32
  pub direction : wr.opcode ≡ opcode_of ctx.direction
  pub owner : decode_handle wr.wr_id ≡ ctx.handle % 2 ^ 16
  pub chunk : decode_chunk wr.wr_id ≡ i % 2 ^ 32
  pub local_key : wr.lkey ≢ 0
  pub remote_key : wr.rkey ≢ 0

-- Requests for the chunks from `i` on, one each, in order.
abbrev pub AreRequests : Progress → ℕ → List SendWr → Type 0
AreRequests ctx i [] = Unit
AreRequests ctx i (wr ∷ wrs) = IsRequest ctx i wr × AreRequests ctx (suc i) wrs

-- What posting does not change of a transfer.
pub record SameTransfer (before after : Progress) : Type 0 where
  pub chunks : after.chunks ≡ before.chunks
  pub handle : after.handle ≡ before.handle
  pub direction : after.direction ≡ before.direction
  pub total_chunks : after.total_chunks ≡ before.total_chunks
  pub pxn_enabled : after.pxn_enabled ≡ before.pxn_enabled

SameTransfer-refl : (ctx : Progress) → SameTransfer ctx ctx
SameTransfer-refl ctx = record {
  chunks = refl;
  handle = refl;
  direction = refl;
  total_chunks = refl;
  pxn_enabled = refl;
}

SameTransfer-trans : (a b c : Progress) → SameTransfer a b → SameTransfer b c → SameTransfer a c
SameTransfer-trans a b c p q = record {
  chunks = q.chunks ∙ p.chunks;
  handle = q.handle ∙ p.handle;
  direction = q.direction ∙ p.direction;
  total_chunks = q.total_chunks ∙ p.total_chunks;
  pxn_enabled = q.pxn_enabled ∙ p.pxn_enabled;
}

IsRequest-same :
    (before after : Progress) (i : ℕ) (wr : SendWr)
    → SameTransfer before after
    → IsRequest after i wr
    → IsRequest before i wr
IsRequest-same before after i wr s r = record {
  from = r.from ∙ ap (λ t. (get_chunk t i).local_addr) s.chunks;
  to = r.to ∙ ap (λ t. (get_chunk t i).remote_addr) s.chunks;
  size = r.size ∙ ap (λ t. (get_chunk t i).length % 2 ^ 32) s.chunks;
  direction = r.direction ∙ ap opcode_of s.direction;
  owner = r.owner ∙ ap (λ h. h % 2 ^ 16) s.handle;
  chunk = r.chunk;
  local_key = r.local_key;
  remote_key = r.remote_key;
}

AreRequests-same :
    (before after : Progress) (i : ℕ) (wrs : List SendWr)
    → SameTransfer before after
    → AreRequests after i wrs
    → AreRequests before i wrs
AreRequests-same before after i [] s u = u
AreRequests-same before after i (wr ∷ wrs) s (r, rs) =
    (IsRequest-same before after i wr s r, AreRequests-same before after (suc i) wrs s rs)

send_wr-IsRequest :
    (nic qp_index : ℕ) (ctx : Progress) (r : Resolved)
    → r.lkey ≢ 0
    → r.rkey ≢ 0
    → IsRequest ctx ctx.next_chunk_idx
        (send_wr nic qp_index ctx (get_chunk ctx.chunks ctx.next_chunk_idx) r)
unfolding send_wr
send_wr-IsRequest nic qp_index ctx r l k =
    let (dn, dq, dh, dc, small) = decode-encode nic qp_index ctx.handle ctx.next_chunk_idx in
    record {
      from = refl;
      to = refl;
      size = refl;
      direction = refl;
      owner = dh;
      chunk = dc;
      local_key = l;
      remote_key = k;
    }

module _ (setup : PostSetup) (fabric : Fabric) (cache : NicConnCache) where
  -- Why the loop ended.
  abbrev pub Ended : Posted → Type 0
  Ended p =
      (p.ctx.total_chunks ≤ p.ctx.next_chunk_idx)
      ⊎ ((p.ctx.finished ≡ true)
          ⊎ (NicsFull setup fabric cache p.assigned_now p.worker p.ctx
              ⊎ ((nic : ℕ) × IsBestNic setup fabric cache p.assigned_now p.worker p.ctx nic
                  × QpsFull setup fabric cache p.assigned_now p.worker nic)))

  pub record Ran (ctx : Progress) (p : Posted) : Type 0 where
    pub requests : AreRequests ctx ctx.next_chunk_idx p.requests
    pub taken : p.ctx.next_chunk_idx ≡ ctx.next_chunk_idx + length p.requests
    pub same : SameTransfer ctx p.ctx
    pub ended : Ended p

  Sent-SameTransfer :
      (g : List ℕ) (w w' : WorkerState) (ctx ctx' : Progress) (qp : ℕ) (wr : SendWr)
      → Sent setup fabric cache g w ctx qp wr w' ctx'
      → SameTransfer ctx ctx' × (ctx'.next_chunk_idx ≡ add64 ctx.next_chunk_idx 1)
  unfolding count_chunk
  Sent-SameTransfer g w w' ctx ctx' qp wr v = (
    record {
      chunks = ap (λ (c : Progress). c.chunks) v.context;
      handle = ap (λ (c : Progress). c.handle) v.context;
      direction = ap (λ (c : Progress). c.direction) v.context;
      total_chunks = ap (λ (c : Progress). c.total_chunks) v.context;
      pxn_enabled = ap (λ (c : Progress). c.pxn_enabled) v.context;
    },
    ap (λ (c : Progress). c.next_chunk_idx) v.context,
  )

  after_round-Ran :
      (r : Round) (g : List ℕ) (w : WorkerState) (ctx : Progress)
      (rest : List ℕ → WorkerState → Progress → Posted)
      → View setup fabric cache g w ctx r
      → ctx.pxn_enabled ≡ false
      → ctx.next_chunk_idx < ctx.total_chunks
      → ctx.total_chunks < word
      → ((w' : WorkerState) (ctx' : Progress)
          → SameTransfer ctx ctx'
          → ctx'.next_chunk_idx ≡ ctx.next_chunk_idx + 1
          → Ran ctx' (rest g w' ctx'))
      → Ran ctx (after_round r g w ctx rest)
  unfolding after_round View
  after_round-Ran nic_full g w ctx rest v direct more small next = record {
    requests = tt;
    taken = omega arith;
    same = SameTransfer-refl ctx;
    ended = inr (inr (inl v));
  }
  after_round-Ran qp_full g w ctx rest (nic, on_direct, best, full) direct more small next =
      record {
        requests = tt;
        taken = omega arith;
        same = SameTransfer-refl ctx;
        ended = inr (inr (inr (nic, best, full)));
      }
  after_round-Ran (assigned g' ctx') g w ctx rest (nic, proxy, best, e) direct more small next =
      absurd (ground (arith, proxy, direct))
  after_round-Ran (failed ctx') g w ctx rest v direct more small next =
      let (code, e) = Refused-stop setup fabric cache g w ctx ctx' v in
      subst (λ c. Ran ctx (record { requests = []; assigned_now = g; worker = w; ctx = c })) (sym e)
        record {
          requests = tt;
          taken = omega arith;
          same = record {
            chunks = refl;
            handle = refl;
            direction = refl;
            total_chunks = refl;
            pxn_enabled = refl;
          };
          ended = inr (inl refl);
        }
  after_round-Ran (posted qp wr w' ctx') g w ctx rest v direct more small next =
      let (same, step) = Sent-SameTransfer g w w' ctx ctx' qp wr v in
      let one_more : ctx'.next_chunk_idx ≡ ctx.next_chunk_idx + 1 =
        omega (arith, step, more, small) in
      let later = next w' ctx' same one_more in
      record {
        requests = (
          subst (IsRequest ctx ctx.next_chunk_idx) (sym v.request)
              (send_wr-IsRequest v.nic v.qp_index ctx _ v.lkey_valid v.rkey_valid),
          subst (λ i. AreRequests ctx i (rest g w' ctx').requests) (omega (arith, one_more))
              (AreRequests-same ctx ctx' _ _ same later.requests),
        );
        taken = omega (arith, later.taken, one_more);
        same = SameTransfer-trans ctx ctx' _ same later.same;
        ended = later.ended;
      }

  post_loop-Ran :
      (fuel : ℕ) (g : List ℕ) (w : WorkerState) (ctx : Progress)
      → ctx.pxn_enabled ≡ false
      → ctx.total_chunks < word
      → ctx.total_chunks ≤ ctx.next_chunk_idx + fuel
      → Ran ctx (post_loop fuel setup fabric cache g w ctx)
  unfolding post_loop
  post_loop-Ran zero g w ctx direct small enough = record {
    requests = tt;
    taken = omega arith;
    same = SameTransfer-refl ctx;
    ended = inl (omega (arith, enough));
  }
  post_loop-Ran (suc fuel) g w ctx direct small enough =
      elim (Bool-cases (ltb ctx.next_chunk_idx ctx.total_chunks)) [
        | inr e ↦
            rw (e, post_loop)
              record {
                requests = tt;
                taken = omega arith;
                same = SameTransfer-refl ctx;
                ended = inl (ltb→ge _ _ e);
              }
        | inl more ↦
            rw (more, post_loop)
              (after_round-Ran (post_chunk setup fabric cache g w ctx) g w ctx _
                (post_chunk-View setup fabric cache g w ctx) direct (ltb→lt _ _ more) small
                (λ w' ctx' s e.
                  post_loop-Ran fuel g w' ctx' (s.pxn_enabled ∙ direct)
                    (omega (arith, s.total_chunks, small))
                    (omega (arith, s.total_chunks, e, enough))))
      ]

  -- For a transfer that uses no proxy NICs, the loop posts requests for the chunks from the next one
  -- on, in order, each once, with the chunk's addresses, its length modulo 2^32, the handle and index
  -- of the chunk in the id, and keys that are not zero; it counts them in the index; and it ends only
  -- when no chunk is left, the transfer has failed, no candidate NIC has room, or each queue pair of
  -- the best NIC is full.
  pub post_all-Ran :
      (g : List ℕ) (w : WorkerState) (ctx : Progress)
      → ctx.pxn_enabled ≡ false
      → ctx.total_chunks < word
      → Ran ctx (post_all setup fabric cache g w ctx)
  unfolding post_all
  post_all-Ran g w ctx direct small = post_loop-Ran _ g w ctx direct small (omega arith)
