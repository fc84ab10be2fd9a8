-- ===== src/Config.antt =====
-- The configuration that the constructor `MPComm::Impl::Impl` of src/mpcomm.cpp reads from the
-- environment. The C library's number parsers are a parameter.
pub mod Bounds
mod Tests
use ucl_mpcomm.Common.{
  ltb, leb, ◌==◌, if◌then◌else◌, get_or, ℤ, pos, negsuc, ℕ, ◌^◌, Bool, true, not, ◌&&◌, Option,
  none, some, List, [], ◌∷◌,
}

-- The settings, and the fields they fill.
pub record Config : Type 0 where
  pub max_rdma_transfer_size : ℕ
  pub qps_per_connection : ℕ
  pub gid_index : ℤ
  pub poll_batch_size : ℕ
  pub max_send_wr : ℕ
  pub max_outstanding_per_qp : ℕ
  pub max_idle_spins : ℕ
  pub transfer_stats_interval : ℕ

-- `MPCOMM_DEFAULT_MAX_RDMA_TRANSFER_SIZE`
abbrev pub default_max_rdma_transfer_size : ℕ
default_max_rdma_transfer_size = 2 ^ 30

abbrev pub default_config : Config
default_config = record {
  max_rdma_transfer_size = default_max_rdma_transfer_size;
  qps_per_connection = 1;
  gid_index = pos 3;
  poll_batch_size = 64;
  max_send_wr = 512;
  max_outstanding_per_qp = 256;
  max_idle_spins = 10000;
  transfer_stats_interval = 0;
}

-- The values of the variables, `none` where `getenv` finds none.
pub record Environment : Type 0 where
  pub max_rdma_transfer_size : Option (List ℕ)
  pub qps_per_connection : Option (List ℕ)
  pub gid_index : Option (List ℕ)
  pub poll_batch_size : Option (List ℕ)
  pub max_send_wr : Option (List ℕ)
  pub max_outstanding_per_qp : Option (List ℕ)
  pub max_idle_spins : Option (List ℕ)
  pub transfer_stats_interval : Option (List ℕ)

-- `strtoull`, `strtoul` and `strtol` in base 10, to 64 bits: the value, and how many characters
-- were read.
pub record Parsers : Type 0 where
  pub strtoull : List ℕ → ℕ × ℕ
  pub strtoul : List ℕ → ℕ × ℕ
  pub strtol : List ℕ → ℤ × ℕ

-- `endptr != env_val && *endptr == '\0'`
unfoldable pub read_all : List ℕ → ℕ → Bool
read_all text endptr = not (endptr == 0) && (get_or text endptr 0 == 0)

-- A variable that is set, not empty, parsed to its end and accepted replaces the default.
unfoldable pub setting {ℓ} : {A : Type ℓ} → (List ℕ → A × ℕ) → (A → Bool) → A → Option (List ℕ) → A
unfolding read_all
setting parse accepts default none = default
setting parse accepts default (some []) = default
setting parse accepts default (some (c ∷ cs)) =
    let (val, endptr) = parse (c ∷ cs) in
    if read_all (c ∷ cs) endptr && accepts val then val else default

-- `val > 0`, and at most a limit.
abbrev pub up_to : ℕ → ℕ → Bool
up_to limit val = ltb 0 val && leb val limit

abbrev pub is_gid_index : ℤ → Bool
is_gid_index (pos n) = leb n 255
is_gid_index (negsuc n) = n == 0

unfoldable pub read_config : Parsers → Environment → Config
unfolding setting
read_config parsers env = record {
  max_rdma_transfer_size =
      setting parsers.strtoull (λ val. ltb 0 val) default_config.max_rdma_transfer_size
        env.max_rdma_transfer_size;
  qps_per_connection =
      setting parsers.strtoul (up_to 64) default_config.qps_per_connection env.qps_per_connection;
  gid_index = setting parsers.strtol is_gid_index default_config.gid_index env.gid_index;
  poll_batch_size =
      setting parsers.strtoul (up_to 256) default_config.poll_batch_size env.poll_batch_size;
  max_send_wr = setting parsers.strtoul (up_to 8192) default_config.max_send_wr env.max_send_wr;
  max_outstanding_per_qp =
      setting parsers.strtoul (up_to 8192) default_config.max_outstanding_per_qp
        env.max_outstanding_per_qp;
  max_idle_spins =
      setting parsers.strtoul (up_to 10000000) default_config.max_idle_spins env.max_idle_spins;
  transfer_stats_interval =
      setting parsers.strtoull (λ val. true) default_config.transfer_stats_interval
        env.transfer_stats_interval;
}
