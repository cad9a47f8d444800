-- ===== src/Rlimits.antt =====
-- Resource limits: crates/bubblebox/src/platform/linux/policy/rlimit.rs.
pub mod Limit
pub mod Builder
pub mod Apply
pub mod Applied
use layer_cake.Prelude.{ℕ, Option}

-- `Rlimit`; `none` is RLIM_INFINITY.
pub record Rlimit : Type 0 where
  pub soft : Option ℕ
  pub hard : Option ℕ

pub record Rlimits : Type 0 where
  pub address_space : Option Rlimit
  pub core : Option Rlimit
  pub cpu : Option Rlimit
  pub data_size : Option Rlimit
  pub fsize : Option Rlimit
  pub locks : Option Rlimit
  pub memlock : Option Rlimit
  pub msgqueue : Option Rlimit
  pub nice : Option Rlimit
  pub nofile : Option Rlimit
  pub nproc : Option Rlimit
  pub rtprio : Option Rlimit
  pub rttime : Option Rlimit
  pub sigpending : Option Rlimit
  pub stack : Option Rlimit
