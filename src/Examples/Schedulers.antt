-- ===== src/Examples/Schedulers.antt =====
-- Scheduler policies at concrete inputs, and files that are written at once.
use layer_cake.Prelude.{
  ℕ, zero, suc, ◌≡◌, true, false, none, some, [], ◌∷◌, Bytes, length, ok, err, ltb, ◌<◌,
  if◌then◌else◌, arith,
}
use layer_cake.Meowix.Errors.{unknown, intr}
use layer_cake.Meowix.Act.{Call, is_intr}
use layer_cake.Prelude.Text.{codes}
use layer_cake.Meowix.Flags.{Flags}
use layer_cake.Meowix.Gives.{Gives}
use layer_cake.Meowix.Files.{
  FileKernel, Settles, WroteBeneath, open_beneath_and_write, open_beneath_and_write-WroteBeneath,
}
use layer_cake.Spawn.Wire.{syscall, incomplete_write}
use layer_cake.Scheduler.{SchedPolicy, Attributes, Scheduler}
use layer_cake.Scheduler.Attr.{HasFlags, sched_attr-HasFlags}
use layer_cake.Scheduler.Apply.{SchedKernel, apply_scheduler_policy}
use layer_cake.Scheduler.Applied.{Scheduled, apply_scheduler_policy-Scheduled}

-- A deadline policy that signals an overrun, with a least utilization.
abbrev attributes : Attributes
attributes = record {
  reset_on_fork = true;
  policy = SchedPolicy.deadline 10 20 30 false true;
  min_utilization = some 5;
  max_utilization = none;
}

sched_attr-HasFlags_example : HasFlags attributes
sched_attr-HasFlags_example = sched_attr-HasFlags attributes

-- Writes are interrupted as often as the state says, at most twice.
abbrev pub write_busy : ℕ → Bytes → Call ℕ ℕ
write_busy fd value (suc n) =
    if ltb n 2
    then (err (record { syscall = unknown; error = intr }), n)
    else (ok (length value), suc n)
write_busy fd value zero = (ok (length value), zero)

abbrev pub files : FileKernel
files = record {
  State = ℕ;
  openat2 = λ dir path flags resolve s. (ok 3, s);
  write = write_busy;
  close = λ fd s. s;
}

abbrev pub pending : ℕ → ℕ
pending s = if ltb s 3 then s else 0

pub openat2_falls :
    (dir : ℕ) (path : Bytes) (flags resolve : Flags) (s : ℕ)
    → is_intr (FileKernel.openat2 files dir path flags resolve s).0 ≡ true
    → pending (FileKernel.openat2 files dir path flags resolve s).1 < pending s
openat2_falls dir path flags resolve s h = cc

pub write_falls :
    (fd : ℕ) (value : Bytes) (s : ℕ)
    → is_intr (write_busy fd value s).0 ≡ true
    → pending (write_busy fd value s).1 < pending s
write_falls fd value zero h = cc
write_falls fd value (suc n) h = ground arith

pub enough : (s : ℕ) → pending s < 3
enough s = ground arith

abbrev pub settles : Settles files 3
settles = record {
  pending = pending;
  openat2_falls = openat2_falls;
  write_falls = write_falls;
  enough = enough;
}

abbrev kernel : SchedKernel
kernel = record {
  files = files;
  sched_setattr = λ a s. (ok tt, s);
  create_core_scheduling_cookie = λ s. (ok tt, s);
}

-- The number 7 in decimal.
abbrev digits : ℕ → Bytes
digits n = 48 ∷ 55 ∷ []

abbrev policy : Scheduler
policy = record {
  attributes = some attributes;
  oom_score_adjustment = some 7;
  create_core_scheduling_cookie = true;
}

apply_scheduler_policy-Scheduled_example :
    Gives (λ _. Scheduled kernel digits 4 policy) (apply_scheduler_policy kernel digits 3 4 policy)
apply_scheduler_policy-Scheduled_example =
    apply_scheduler_policy-Scheduled kernel digits 3 settles 4 policy

open_beneath_and_write-WroteBeneath_example :
    Gives
      (λ _. WroteBeneath files 4 (codes "uid_map") (codes "0 0 1"))
      (open_beneath_and_write files syscall incomplete_write 3 4
        (codes "uid_map")
        (ok (codes "0 0 1")))
open_beneath_and_write-WroteBeneath_example =
    open_beneath_and_write-WroteBeneath files syscall incomplete_write 3 settles 4 (codes "uid_map")
      (codes "0 0 1")
