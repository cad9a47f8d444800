-- ===== src/Scheduler/Applied.antt =====
-- What `apply_scheduler_policy` of crates/bubblebox/src/platform/linux/spawn/scheduler.rs does to
-- the process.
use layer_cake.Prelude.{
  ℕ, ◌≡◌, true, false, Bool, Bool-cases, inl, inr, Bytes, [], ◌∷◌, Option, none, some, Result, ok,
  err, ◌==◌, arith,
}
use layer_cake.Prelude.Text.{codes}
use layer_cake.Meowix.Errors.{SyscallError}
use layer_cake.Meowix.Flags.{o_wronly, o_cloexec, resolve_beneath, resolve_no_magiclinks}
use layer_cake.Meowix.Gives.{Gives, bind-Gives, weaken-Gives, pure-Gives, fail-Gives}
use layer_cake.Meowix.Answers.{Answered, call-Answered, attempt-Answered}
use layer_cake.Meowix.Files.{
  Settles, WroteWhole, opened-Gives, and_drop-Gives, write_checked-WroteWhole,
}
use layer_cake.Spawn.Wire.{syscall, incomplete_write}
use layer_cake.Scheduler.{Attributes, Scheduler}
use layer_cake.Scheduler.Attr.{sched_attr}
use layer_cake.Scheduler.Apply.{
  SchedKernel, nodev, apply_attributes, apply_oom_score, ignore_nodev, apply_cookie,
  apply_scheduler_policy,
}

-- A cookie was made, or there is nothing to isolate.
abbrev IsMade : Result (Unit {0}) SyscallError → Type 0
IsMade (ok _) = Unit
IsMade (err e) = e.error.encoded ≡ nodev.encoded

module _ (kernel : SchedKernel) (format : ℕ → Bytes) where
  open kernel use {files, sched_setattr, create_core_scheduling_cookie}
  open files use {State, openat2}

  abbrev Set : Option Attributes → Type 0
  Set none = Unit
  Set (some attributes) = Answered (sched_setattr (sched_attr attributes)) tt

  abbrev Scored : ℕ → Option ℕ → Type 0
  Scored proc none = Unit
  Scored proc (some adjustment) =
      (fd : ℕ) × Answered
        (openat2 proc (codes "self/oom_score_adj") (o_wronly ∷ o_cloexec ∷ [])
          (resolve_beneath ∷ resolve_no_magiclinks ∷ []))
        fd
      × WroteWhole files fd (format adjustment)

  abbrev Isolated : Bool → Type 0
  Isolated false = Unit
  Isolated true =
      (s : State) × (r : Result (Unit {0}) SyscallError) × ((create_core_scheduling_cookie s).0 ≡ r)
      × IsMade r

  -- The attributes that the policy gives are those of the process, the score that it gives is
  -- written whole, and a cookie that it asks for is made, unless there is nothing to isolate.
  abbrev pub Scheduled : ℕ → Scheduler → Type 0
  Scheduled proc policy =
      Set policy.attributes
      × Scored proc policy.oom_score_adjustment
      × Isolated policy.create_core_scheduling_cookie

  module _ (fuel : ℕ) (k : Settles files fuel) where
    apply_attributes-Set :
        (a : Option Attributes) → Gives (λ _. Set a) (apply_attributes kernel format fuel a)
    unfolding apply_attributes
    apply_attributes-Set none = pure-Gives _ _ tt
    apply_attributes-Set (some a) = weaken-Gives _ _ _ (call-Answered _ _) (λ _ h. h)

    apply_oom_score-Scored :
        (proc : ℕ) (o : Option ℕ)
        → Gives (λ _. Scored proc o) (apply_oom_score kernel format fuel proc o)
    unfolding apply_oom_score
    apply_oom_score-Scored proc none = pure-Gives _ _ tt
    apply_oom_score-Scored proc (some n) =
        bind-Gives _ _ _ _ (opened-Gives files _ fuel k proc _ _ _) (λ fd a.
          and_drop-Gives files _ fd _ (
            weaken-Gives _ _ _ (write_checked-WroteWhole files syscall incomplete_write fuel k fd _)
              (λ _ w. (fd, a, w))))

    ignore_nodev-IsMade :
        (r : Result (Unit {0}) SyscallError)
        → Gives (λ _. IsMade r) (ignore_nodev kernel format fuel r)
    unfolding ignore_nodev
    ignore_nodev-IsMade (ok _) = pure-Gives _ _ tt
    ignore_nodev-IsMade (err e) = elim (Bool-cases (e.error.encoded == nodev.encoded)) [
      | inl h ↦ rw h (pure-Gives _ _ (ground (arith, h)))
      | inr h ↦ rw h (fail-Gives _ _)
    ]

    apply_cookie-Isolated : (b : Bool) → Gives (λ _. Isolated b) (apply_cookie kernel format fuel b)
    unfolding apply_cookie
    apply_cookie-Isolated false = pure-Gives _ _ tt
    apply_cookie-Isolated true =
        bind-Gives _ _ _ _ (attempt-Answered _)
          (λ r a. weaken-Gives _ _ _ (ignore_nodev-IsMade r) (λ _ h. (a.0, r, a.1, h)))

    -- Where interrupted calls lower a measure below the fuel, `apply_scheduler_policy` comes to an
    -- end. If it succeeds, the attributes that the policy gives have been set, the score that it
    -- gives has been written whole, and a cookie that it asks for has been made, unless the kernel
    -- has said that there is nothing to isolate.
    pub apply_scheduler_policy-Scheduled :
        (proc : ℕ) (policy : Scheduler)
        → Gives (λ _. Scheduled proc policy) (apply_scheduler_policy kernel format fuel proc policy)
    unfolding apply_scheduler_policy
    apply_scheduler_policy-Scheduled proc policy =
        bind-Gives _ _ _ _ (apply_attributes-Set policy.attributes) (λ _ a.
          bind-Gives _ _ _ _ (apply_oom_score-Scored proc policy.oom_score_adjustment) (λ _ b.
            weaken-Gives _ _ _ (apply_cookie-Isolated policy.create_core_scheduling_cookie)
              (λ _ c. (a, b, c))))
