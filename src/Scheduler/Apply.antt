-- ===== src/Scheduler/Apply.antt =====
-- `apply_scheduler_policy` of crates/bubblebox/src/platform/linux/spawn/scheduler.rs.
use layer_cake.Prelude.{
  ℕ, Bool, true, false, Option, none, some, Bytes, [], ◌∷◌, ◌==◌, if◌then◌else◌, Result, ok, err,
}
use layer_cake.Prelude.Text.{codes}
use layer_cake.Meowix.Errors.{Errno, errno, SyscallError}
use layer_cake.Meowix.Flags.{o_wronly, o_cloexec, resolve_beneath, resolve_no_magiclinks}
use layer_cake.Meowix.Act.{Act, Call}
use layer_cake.Meowix.Gives.{◌>>=◌, ◌>>◌, pure, fail, call, retried, attempt}
use layer_cake.Meowix.Files.{FileKernel, and_drop, write_checked}
use layer_cake.Spawn.Wire.{PostSpawnGuest, syscall, incomplete_write}
use layer_cake.Scheduler.{Attributes, Scheduler}
use layer_cake.Scheduler.Attr.{SchedAttr, sched_attr}

-- The calls on the current process.
pub record SchedKernel : Type 1 where
  pub files : FileKernel
  pub sched_setattr : SchedAttr → Call (FileKernel.State files) (Unit {0})
  pub create_core_scheduling_cookie : Call (FileKernel.State files) (Unit {0})

-- `Errno::NODEV`
abbrev pub nodev : Errno
nodev = errno 19

-- `format` is that of the crate itoa.
module _ (kernel : SchedKernel) (format : ℕ → Bytes) (fuel : ℕ) where
  open kernel use {files, sched_setattr, create_core_scheduling_cookie}
  open files use {State, openat2}

  abbrev pub Guest : Type 0 → Type 0
  Guest A = Act State PostSpawnGuest A

  unfoldable pub apply_attributes : Option Attributes → Guest (Unit {0})
  apply_attributes none = pure tt
  apply_attributes (some attributes) = call syscall (sched_setattr (sched_attr attributes))

  unfoldable pub apply_oom_score : ℕ → Option ℕ → Guest (Unit {0})
  unfolding and_drop write_checked
  apply_oom_score proc none = pure tt
  apply_oom_score proc (some adjustment) = do
    fd ← retried syscall fuel (
        openat2 proc (codes "self/oom_score_adj") (o_wronly ∷ o_cloexec ∷ [])
          (resolve_beneath ∷ resolve_no_magiclinks ∷ []))
    and_drop files fd (write_checked files syscall incomplete_write fuel fd (format adjustment))

  -- The `match` on the answer of prctl.
  unfoldable pub ignore_nodev : Result (Unit {0}) SyscallError → Guest (Unit {0})
  ignore_nodev (ok _) = pure tt
  ignore_nodev (err e) = if e.error.encoded == nodev.encoded then pure tt else fail (syscall e)

  unfoldable pub apply_cookie : Bool → Guest (Unit {0})
  unfolding ignore_nodev
  apply_cookie false = pure tt
  apply_cookie true = attempt create_core_scheduling_cookie >>= ignore_nodev

  -- `apply_scheduler_policy`
  unfoldable pub apply_scheduler_policy : ℕ → Scheduler → Guest (Unit {0})
  unfolding apply_attributes apply_oom_score apply_cookie
  apply_scheduler_policy proc policy = do
    apply_attributes policy.attributes
    apply_oom_score proc policy.oom_score_adjustment
    apply_cookie policy.create_core_scheduling_cookie
