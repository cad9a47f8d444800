-- ===== src/Cgroups/Policy.antt =====
-- Policy, CgroupControllers and parse_controllers of
-- crates/bubblebox/src/platform/linux/cgroups/policy.rs. Of std, `reserve` is that of `Vec`, `is_utf8` the
-- test of `String::from_utf8`, and `split_whitespace` that of `str`.
use layer_cake.Prelude.{
  ℕ, Bool, true, false, Bytes, List, [], ◌∷◌, bytes_eq, Option, none, some, if◌then◌else◌,
}
use layer_cake.Prelude.Int.{ℤ}
use layer_cake.Prelude.Text.{codes}
use layer_cake.Meowix.Act.{Act, Call, wrap_error}
use layer_cake.Meowix.Gives.{◌>>=◌, ◌>>◌, pure, fail, retried}
use layer_cake.Meowix.Flags.{o_cloexec, resolve_beneath, resolve_no_magiclinks, resolve_no_symlinks}
use layer_cake.Meowix.Files.{FileKernel, and_drop}
use layer_cake.Meowix.Io.{read_to_end}
use layer_cake.Cgroups.Errors.{
  StringRead, utf8, CgroupController, missing_cgroup_controller, Host, string_read,
}
use layer_cake.Cgroups.Files.{OnHost}
use layer_cake.Cgroups.Core
use layer_cake.Cgroups.Cpu
use layer_cake.Cgroups.Memory
use layer_cake.Cgroups.Io
use layer_cake.Cgroups.Pids

pub record CgroupControllers : Type 0 where
  pub cpu : Bool
  pub memory : Bool
  pub io : Bool
  pub pids : Bool

abbrev pub no_controllers : CgroupControllers
no_controllers = record { cpu = false; memory = false; io = false; pids = false }

-- The `match` on a controller that is read.
unfoldable pub see : CgroupControllers → Bytes → CgroupControllers
see c name =
    if bytes_eq name (codes "cpu")
    then record c { cpu = true }
    else if bytes_eq name (codes "memory")
    then record c { memory = true }
    else if bytes_eq name (codes "io")
    then record c { io = true }
    else if bytes_eq name (codes "pids")
    then record c { pids = true }
    else c

unfoldable pub see_all : CgroupControllers → List Bytes → CgroupControllers
see_all c [] = c
see_all c (name ∷ names) = see_all (see c name) names

pub record Policy : Type 0 where
  pub cgroup : Core.CgroupProperties
  pub cpu : Option Cpu.CpuController
  pub memory : Option Memory.MemoryController
  pub io : Option Io.IoController
  pub pids : Option Pids.PidsController

abbrev pub default : Policy
default = record { cgroup = Core.default; cpu = none; memory = none; io = none; pids = none }

-- `unwrap_or_default`, with the default of the options.
abbrev unwrap_or : {A : Type 0} → A → Option A → A
unwrap_or d none = d
unwrap_or d (some a) = a

unfoldable pub cgroup : (Core.CgroupProperties → Core.CgroupProperties) → Policy → Policy
cgroup configure p = record p { cgroup = configure p.cgroup }

unfoldable pub cpu : (Cpu.CpuController → Cpu.CpuController) → Policy → Policy
cpu configure p = record p { cpu = some (configure (unwrap_or Cpu.default p.cpu)) }

unfoldable pub disable_cpu : Policy → Policy
disable_cpu p = record p { cpu = none }

unfoldable pub memory : (Memory.MemoryController → Memory.MemoryController) → Policy → Policy
memory configure p = record p { memory = some (configure (unwrap_or Memory.default p.memory)) }

unfoldable pub disable_memory : Policy → Policy
disable_memory p = record p { memory = none }

unfoldable pub io : (Io.IoController → Io.IoController) → Policy → Policy
io configure p = record p { io = some (configure (unwrap_or Io.default p.io)) }

unfoldable pub disable_io : Policy → Policy
disable_io p = record p { io = none }

unfoldable pub pids : (Pids.PidsController → Pids.PidsController) → Policy → Policy
pids configure p = record p { pids = some (configure (unwrap_or Pids.default p.pids)) }

unfoldable pub disable_pids : Policy → Policy
disable_pids p = record p { pids = none }

-- The kernel that the policy is applied on: also `read` into a buffer of a size.
pub record CgroupKernel : Type 1 where
  pub files : FileKernel
  pub read_uninit : ℕ → ℕ → Call (FileKernel.State files) Bytes

module _ (kernel : CgroupKernel) (fuel : ℕ) (reserve : Bytes → ℕ → ℕ) (is_utf8 : Bytes → Bool)
    (split_whitespace : Bytes → List Bytes) where
  open kernel use {files, read_uninit}
  open files use {State, openat2}

  -- `read_string`
  unfoldable pub read_string : ℕ → Act State StringRead Bytes
  unfolding read_to_end
  read_string fd = do
    text ← wrap_error StringRead.syscall (read_to_end reserve (read_uninit fd) fuel ([], 0))
    if is_utf8 text then pure text else fail (utf8 text)

  unfoldable pub parse_controllers : ℕ → OnHost files fuel CgroupControllers
  unfolding and_drop read_string see_all
  parse_controllers dir = do
    fd ← retried Host.syscall fuel (
        openat2 dir (codes "cgroup.controllers") (o_cloexec ∷ [])
          (resolve_beneath ∷ resolve_no_magiclinks ∷ resolve_no_symlinks ∷ []))
    and_drop files fd (do
      controllers ← wrap_error string_read (read_string fd)
      pure (see_all no_controllers (split_whitespace controllers)))

  -- A controller that the policy configures.
  unfoldable pub apply_controller :
      {C : Type 0}
      → CgroupController
      → Bool
      → Option C
      → (C → OnHost files fuel (Unit {0}))
      → OnHost files fuel (Unit {0})
  apply_controller name available none apply = pure tt
  apply_controller name available (some c) apply =
      if available then apply c else fail (missing_cgroup_controller name)

  module _ (format : ℕ → Bytes) (format_signed : ℤ → Bytes) where
    -- `apply_to_cgroup`
    unfoldable pub apply_to_cgroup : ℕ → Policy → OnHost files fuel (Unit {0})
    unfolding parse_controllers apply_controller
    apply_to_cgroup dir p = do
      Core.apply_to_cgroup files fuel dir p.cgroup
      controllers ← parse_controllers dir
      apply_controller CgroupController.cpu controllers.cpu p.cpu
          (Cpu.apply_to_cgroup files fuel format format_signed dir)
      apply_controller CgroupController.memory controllers.memory p.memory
          (Memory.apply_to_cgroup files fuel format dir)
      apply_controller CgroupController.io controllers.io p.io (Io.apply_to_cgroup files fuel dir)
      apply_controller CgroupController.pids controllers.pids p.pids
          (Pids.apply_to_cgroup files fuel format dir)
