-- ===== src/Scheduler/Attr.antt =====
-- The `sched_attr` that crates/bubblebox/src/platform/linux/spawn/scheduler.rs fills.
use layer_cake.Prelude.{ℕ, ◌≡◌, refl, ap, ◌∙◌, Bool, true, false, Option, none, some, arith}
use layer_cake.Prelude.Bits.{set_if, bit}
use layer_cake.Prelude.Int.{ℤ, pos}
use layer_cake.Scheduler.{SchedPolicy, normal, batch, idle, fifo, round_robin, deadline, Attributes}

-- include/uapi/linux/sched/types.h
pub record SchedAttr : Type 0 where
  pub size : ℕ
  pub sched_policy : ℕ
  pub sched_flags : ℕ
  pub sched_nice : ℤ
  pub sched_priority : ℕ
  pub sched_runtime : ℕ
  pub sched_deadline : ℕ
  pub sched_period : ℕ
  pub sched_util_min : ℕ
  pub sched_util_max : ℕ

-- include/uapi/linux/sched.h
abbrev pub flag_reset_on_fork : ℕ
flag_reset_on_fork = 0x1

abbrev pub flag_reclaim : ℕ
flag_reclaim = 0x2

abbrev pub flag_dl_overrun : ℕ
flag_dl_overrun = 0x4

abbrev pub flag_util_clamp_min : ℕ
flag_util_clamp_min = 0x20

abbrev pub flag_util_clamp_max : ℕ
flag_util_clamp_max = 0x40

-- `mem::zeroed`, with the size of the structure
abbrev pub zeroed : SchedAttr
zeroed = record {
  size = 56;
  sched_policy = 0;
  sched_flags = 0;
  sched_nice = pos 0;
  sched_priority = 0;
  sched_runtime = 0;
  sched_deadline = 0;
  sched_period = 0;
  sched_util_min = 0;
  sched_util_max = 0;
}

-- `|=` on the flags under an `if`
abbrev pub flag : Bool → ℕ → SchedAttr → SchedAttr
flag b mask a = record a { sched_flags = set_if b mask a.sched_flags }

-- The `match` on the policy.
unfoldable pub put_policy : SchedPolicy → SchedAttr → SchedAttr
put_policy (normal nice) a = record a { sched_policy = 0; sched_nice = nice }
put_policy (batch nice) a = record a { sched_policy = 3; sched_nice = nice }
put_policy idle a = record a { sched_policy = 5 }
put_policy (fifo priority) a = record a { sched_policy = 1; sched_priority = priority }
put_policy (round_robin priority) a = record a { sched_policy = 2; sched_priority = priority }
put_policy (deadline runtime limit period reclaim overrun) a = flag overrun flag_dl_overrun (
    flag reclaim flag_reclaim (record a {
      sched_policy = 6;
      sched_runtime = runtime;
      sched_deadline = limit;
      sched_period = period;
    }))

unfoldable pub put_min : Option ℕ → SchedAttr → SchedAttr
put_min none a = a
put_min (some min) a = record (flag true flag_util_clamp_min a) { sched_util_min = min }

unfoldable pub put_max : Option ℕ → SchedAttr → SchedAttr
put_max none a = a
put_max (some max) a = record (flag true flag_util_clamp_max a) { sched_util_max = max }

-- The structure that is passed to sched_setattr.
unfoldable pub sched_attr : Attributes → SchedAttr
unfolding put_policy put_min put_max
sched_attr a = put_max a.max_utilization (
    put_min a.min_utilization
      (put_policy a.policy (flag a.reset_on_fork flag_reset_on_fork zeroed)))

abbrev pub reclaims : SchedPolicy → Bool
reclaims (deadline runtime limit period reclaim overrun) = reclaim
reclaims _ = false

abbrev pub signals : SchedPolicy → Bool
signals (deadline runtime limit period reclaim overrun) = overrun
signals _ = false

abbrev pub is_given : Option ℕ → Bool
is_given none = false
is_given (some n) = true

abbrev pub HasFlags : Attributes → Type 0
HasFlags a =
    (bit 0 (sched_attr a).sched_flags ≡ a.reset_on_fork)
    × (bit 1 (sched_attr a).sched_flags ≡ reclaims a.policy)
    × (bit 2 (sched_attr a).sched_flags ≡ signals a.policy)
    × (bit 5 (sched_attr a).sched_flags ≡ is_given a.min_utilization)
    × (bit 6 (sched_attr a).sched_flags ≡ is_given a.max_utilization)

put_policy-flags :
    (p : SchedPolicy) (a : SchedAttr)
    → (put_policy p a).sched_flags
      ≡ set_if (signals p) flag_dl_overrun (set_if (reclaims p) flag_reclaim a.sched_flags)
unfolding put_policy
put_policy-flags (normal nice) a = refl
put_policy-flags (batch nice) a = refl
put_policy-flags idle a = refl
put_policy-flags (fifo priority) a = refl
put_policy-flags (round_robin priority) a = refl
put_policy-flags (deadline runtime limit period reclaim overrun) a = refl

put_min-flags :
    (o : Option ℕ) (a : SchedAttr)
    → (put_min o a).sched_flags ≡ set_if (is_given o) flag_util_clamp_min a.sched_flags
unfolding put_min
put_min-flags none a = refl
put_min-flags (some n) a = refl

put_max-flags :
    (o : Option ℕ) (a : SchedAttr)
    → (put_max o a).sched_flags ≡ set_if (is_given o) flag_util_clamp_max a.sched_flags
unfolding put_max
put_max-flags none a = refl
put_max-flags (some n) a = refl

abbrev word : Bool → Bool → Bool → Bool → Bool → ℕ
word a b c d e = set_if e flag_util_clamp_max (
    set_if d flag_util_clamp_min
      (set_if c flag_dl_overrun (set_if b flag_reclaim (set_if a flag_reset_on_fork 0))))

word-bits :
    (a b c d e : Bool)
    → (bit 0 (word a b c d e) ≡ a)
      × (bit 1 (word a b c d e) ≡ b)
      × (bit 2 (word a b c d e) ≡ c)
      × (bit 5 (word a b c d e) ≡ d)
      × (bit 6 (word a b c d e) ≡ e)
word-bits a b c d e = ground arith

sched_attr-word :
    (a : Attributes)
    → (sched_attr a).sched_flags
      ≡ word a.reset_on_fork
          (reclaims a.policy)
          (signals a.policy)
          (is_given a.min_utilization)
          (is_given a.max_utilization)
unfolding sched_attr
sched_attr-word a =
    put_max-flags a.max_utilization _
    ∙ ap (set_if (is_given a.max_utilization) flag_util_clamp_max) (
        put_min-flags a.min_utilization _
        ∙ ap (set_if (is_given a.min_utilization) flag_util_clamp_min)
            (put_policy-flags a.policy _))

-- In the flags that are passed to sched_setattr, bits 0, 1, 2, 5 and 6 are the reset on fork, the
-- reclaiming and the overrun signal of a deadline policy, and whether a least and a greatest
-- utilization are given.
pub sched_attr-HasFlags : (a : Attributes) → HasFlags a
sched_attr-HasFlags a = rw (sched_attr-word a) (
    word-bits a.reset_on_fork (reclaims a.policy) (signals a.policy) (is_given a.min_utilization)
      (is_given a.max_utilization))
