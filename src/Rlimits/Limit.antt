-- ===== src/Rlimits/Limit.antt =====
-- The methods of `Rlimit` of policy/rlimit.rs.
use layer_cake.Prelude.{ℕ, ◌-◌, ◌^◌, Option, none, some}
use layer_cake.Rlimits.{Rlimit}

-- `u64::MAX`, which is RLIM64_INFINITY
abbrev pub u64_max : ℕ
u64_max = 2 ^ 64 - 1

abbrev pub unwrap_or : ℕ → Option ℕ → ℕ
unwrap_or d none = d
unwrap_or d (some n) = n

unfoldable pub new : ℕ → ℕ → Rlimit
new soft hard = record { soft = some soft; hard = some hard }

unfoldable pub default : Rlimit
unfolding new
default = new 0 0

unfoldable pub infinity : Rlimit
infinity = record { soft = none; hard = none }

unfoldable pub into_raw : Rlimit → ℕ × ℕ
into_raw l = (unwrap_or u64_max l.soft, unwrap_or u64_max l.hard)

unfoldable pub soft_infinity : Rlimit → Rlimit
soft_infinity l = record l { soft = none }

unfoldable pub soft : ℕ → Rlimit → Rlimit
soft limit l = record l { soft = some limit }

unfoldable pub hard_infinity : Rlimit → Rlimit
hard_infinity l = record l { hard = none }

unfoldable pub hard : ℕ → Rlimit → Rlimit
hard limit l = record l { hard = some limit }
