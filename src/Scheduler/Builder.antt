-- ===== src/Scheduler/Builder.antt =====
-- The methods of `Scheduler` and `Attributes` of policy/scheduler.rs.
use layer_cake.Prelude.{ℕ, Bool, false, Option, none, some}
use layer_cake.Prelude.Int.{ℤ, pos}
use layer_cake.Scheduler.{SchedPolicy, Attributes, Scheduler}

unfoldable pub default_attributes : Attributes
default_attributes = record {
  reset_on_fork = false;
  policy = SchedPolicy.normal (pos 0);
  min_utilization = none;
  max_utilization = none;
}

unfoldable pub default : Scheduler
default = record {
  attributes = none;
  oom_score_adjustment = none;
  create_core_scheduling_cookie = false;
}

-- `unwrap_or_default`
unfoldable pub or_default : Option Attributes → Attributes
unfolding default_attributes
or_default none = default_attributes
or_default (some a) = a

unfoldable pub attributes : (Attributes → Attributes) → Scheduler → Scheduler
unfolding or_default
attributes configure s = record s { attributes = some (configure (or_default s.attributes)) }

unfoldable pub clear_attributes : Scheduler → Scheduler
clear_attributes s = record s { attributes = none }

unfoldable pub oom_score_adjustment : ℕ → Scheduler → Scheduler
oom_score_adjustment adj s = record s { oom_score_adjustment = some adj }

unfoldable pub clear_oom_score_adjustment : Scheduler → Scheduler
clear_oom_score_adjustment s = record s { oom_score_adjustment = none }

unfoldable pub create_core_scheduling_cookie : Bool → Scheduler → Scheduler
create_core_scheduling_cookie create s = record s { create_core_scheduling_cookie = create }

unfoldable pub reset_on_fork : Bool → Attributes → Attributes
reset_on_fork reset a = record a { reset_on_fork = reset }

unfoldable pub normal : ℤ → Attributes → Attributes
normal nice a = record a { policy = SchedPolicy.normal nice }

unfoldable pub batch : ℤ → Attributes → Attributes
batch nice a = record a { policy = SchedPolicy.batch nice }

unfoldable pub idle : Attributes → Attributes
idle a = record a { policy = SchedPolicy.idle }

unfoldable pub fifo : ℕ → Attributes → Attributes
fifo priority a = record a { policy = SchedPolicy.fifo priority }

unfoldable pub round_robin : ℕ → Attributes → Attributes
round_robin priority a = record a { policy = SchedPolicy.round_robin priority }

unfoldable pub deadline : ℕ → ℕ → ℕ → Bool → Bool → Attributes → Attributes
deadline runtime limit period reclaim overrun a = record a {
  policy = SchedPolicy.deadline runtime limit period reclaim overrun;
}

unfoldable pub min_utilization : ℕ → Attributes → Attributes
min_utilization min a = record a { min_utilization = some min }

unfoldable pub clear_min_utilization : Attributes → Attributes
clear_min_utilization a = record a { min_utilization = none }

unfoldable pub max_utilization : ℕ → Attributes → Attributes
max_utilization max a = record a { max_utilization = some max }

unfoldable pub clear_max_utilization : Attributes → Attributes
clear_max_utilization a = record a { max_utilization = none }
