-- ===== src/Config/Tests.antt =====
-- A parser that reads decimal digits, on an environment with one good and one bad variable.
use ucl_mpcomm.Common.{
  leb, if◌then◌else◌, pos, ℕ, suc, ◌+◌, ◌-◌, ◌*◌, ◌≡◌, refl, ◌&&◌, none, some, List, [], ◌∷◌,
}
use ucl_mpcomm.Config.{Environment, Parsers, default_config, read_config}
use ucl_mpcomm.Config.Bounds.{InRange, read_config-InRange}

-- Digits from the front, onto a value and a count.
abbrev digits : ℕ → ℕ → List ℕ → ℕ × ℕ
digits val n [] = (val, n)
digits val n (c ∷ cs) =
    let rest = digits (val * 10 + (c - 48)) (suc n) cs in
    if leb 48 c && leb c 57 then rest else (val, n)

abbrev decimal : Parsers
decimal = record {
  strtoull = digits 0 0;
  strtoul = digits 0 0;
  strtol = λ text. let (val, n) = digits 0 0 text in (pos val, n);
}

abbrev environment : Environment
environment = record {
  max_rdma_transfer_size = some (52 ∷ 50 ∷ []);
  qps_per_connection = some (54 ∷ 53 ∷ []);
  gid_index = none;
  poll_batch_size = some (51 ∷ 120 ∷ []);
  max_send_wr = none;
  max_outstanding_per_qp = none;
  max_idle_spins = none;
  transfer_stats_interval = none;
}

-- 42 is taken; 65 is too large, and "3x" is not a number.
read_environment :
    read_config decimal environment ≡ record default_config { max_rdma_transfer_size = 42 }
unfolding read_config
read_environment = refl

read_config-InRange_example : InRange (read_config decimal environment)
read_config-InRange_example = read_config-InRange decimal environment
