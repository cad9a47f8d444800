-- ===== src/Scheduler.antt =====
-- The scheduler policy: crates/bubblebox/src/platform/linux/policy/scheduler.rs.
pub mod Builder
pub mod Attr
pub mod Apply
pub mod Applied
use layer_cake.Prelude.{ℕ, Bool, Option}
use layer_cake.Prelude.Int.{ℤ}

-- `Policy`
pub data SchedPolicy : Type 0 where
  normal : ℤ → SchedPolicy
  batch : ℤ → SchedPolicy
  idle : SchedPolicy
  fifo : ℕ → SchedPolicy
  round_robin : ℕ → SchedPolicy
  -- the runtime, the deadline, the period, `allow_reclaim` and `signal_on_overrun`
  deadline : ℕ → ℕ → ℕ → Bool → Bool → SchedPolicy

-- `Attributes`
pub record Attributes : Type 0 where
  pub reset_on_fork : Bool
  pub policy : SchedPolicy
  pub min_utilization : Option ℕ
  pub max_utilization : Option ℕ

-- `Scheduler`
pub record Scheduler : Type 0 where
  pub attributes : Option Attributes
  pub oom_score_adjustment : Option ℕ
  pub create_core_scheduling_cookie : Bool
