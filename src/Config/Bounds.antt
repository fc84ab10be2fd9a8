-- ===== src/Config/Bounds.antt =====
-- Whatever the environment holds, the settings end within the limits that the constructor checks.
use ucl_mpcomm.Common.{
  ltb, ltb→lt, Bool-cases, pos, word, ℕ, ◌-◌, ◌^◌, ◌≤◌, ◌<◌, ◌≡◌, refl, inl, inr, Bool, true,
  Option, none, some, List, [], ◌∷◌, arith,
}
use ucl_mpcomm.Chunks.{TransferDirection, layout}
use ucl_mpcomm.Config.{
  Config, Environment, Parsers, read_all, setting, up_to, is_gid_index, read_config,
}

-- A setting is accepted by its own test if the default is.
setting-accepted {ℓ} :
    {A : Type ℓ} (parse : List ℕ → A × ℕ) (accepts : A → Bool) (default : A)
    (text : Option (List ℕ))
    → accepts default ≡ true
    → accepts (setting parse accepts default text) ≡ true
unfolding setting
setting-accepted parse accepts default none ok = ok
setting-accepted parse accepts default (some []) ok = ok
setting-accepted parse accepts default (some (c ∷ cs)) ok =
    elim (Bool-cases (read_all (c ∷ cs) (parse (c ∷ cs)).1)) [
      | inr partial ↦ rw partial ok
      | inl whole ↦ elim (Bool-cases (accepts (parse (c ∷ cs)).0)) [
        | inl good ↦ rw (whole, good) good
        | inr bad ↦ rw (whole, bad) ok
      ]
    ]

up_to-range : (limit val : ℕ) → up_to limit val ≡ true → (0 < val) × (val ≤ limit)
up_to-range limit val h = (ground (arith, h), ground (arith, h))

pub record InRange (c : Config) : Type 0 where
  pub transfer_size : 0 < c.max_rdma_transfer_size
  pub qps : (0 < c.qps_per_connection) × (c.qps_per_connection ≤ 64)
  pub gid : is_gid_index c.gid_index ≡ true
  pub batch : (0 < c.poll_batch_size) × (c.poll_batch_size ≤ 256)
  pub send_wr : (0 < c.max_send_wr) × (c.max_send_wr ≤ 8192)
  pub outstanding : (0 < c.max_outstanding_per_qp) × (c.max_outstanding_per_qp ≤ 8192)
  pub idle_spins : (0 < c.max_idle_spins) × (c.max_idle_spins ≤ 10000000)

-- For any parsers and any environment, every setting with limits is within them.
pub read_config-InRange :
    (parsers : Parsers) (env : Environment) → InRange (read_config parsers env)
unfolding read_config
read_config-InRange parsers env = record {
  transfer_size = ltb→lt _ _ (
      setting-accepted parsers.strtoull (λ val. ltb 0 val) (2 ^ 30) env.max_rdma_transfer_size
        refl);
  qps =
      up_to-range 64 _ (setting-accepted parsers.strtoul (up_to 64) 1 env.qps_per_connection refl);
  gid = setting-accepted parsers.strtol is_gid_index (pos 3) env.gid_index refl;
  batch =
      up_to-range 256 _ (setting-accepted parsers.strtoul (up_to 256) 64 env.poll_batch_size refl);
  send_wr =
      up_to-range 8192 _ (setting-accepted parsers.strtoul (up_to 8192) 512 env.max_send_wr refl);
  outstanding =
      up_to-range 8192 _
        (setting-accepted parsers.strtoul (up_to 8192) 256 env.max_outstanding_per_qp refl);
  idle_spins =
      up_to-range 10000000 _
        (setting-accepted parsers.strtoul (up_to 10000000) 10000 env.max_idle_spins refl);
}

-- The limit on the chunk size is missing: a size of 2^64 - 1, as `strtoull` reads "-1", wraps round
-- in the layout loop, and a transfer to one host of two bytes or more has no chunk at all.
pub layout_wraps :
    (dir : TransferDirection) (len : ℕ)
    → 2 ≤ len
    → len < word
    → (layout dir (2 ^ 64 - 1) (len ∷ [])).total_chunks ≡ 0
unfolding layout
layout_wraps dir len h w = omega (arith, h, w)
