-- ===== src/Cgroups/Cpu.antt =====
-- CpuController of crates/bubblebox/src/platform/linux/cgroups/policy.rs.
use layer_cake.Prelude.{ℕ, Bool, false, Bytes, [], ◌∷◌, ◌++◌, Option, none, some}
use layer_cake.Prelude.Int.{ℤ}
use layer_cake.Prelude.Text.{codes}
use layer_cake.Meowix.Gives.{Gives, ◌>>=◌, ◌>>◌, pure, retried, bind-Gives, weaken-Gives}
use layer_cake.Meowix.Flags.{
  o_wronly, o_cloexec, resolve_beneath, resolve_no_magiclinks, resolve_no_symlinks,
}
use layer_cake.Meowix.Files.{
  FileKernel, Settles, WroteBeneath, and_drop, write_checked, opened-Gives, and_drop-Gives,
  write_checked-WroteWhole,
}
use layer_cake.Cgroups.Errors.{syscall, incomplete_write}
use layer_cake.Cgroups.Values.{
  Resource, value, into_str, switch, UclampValue, clamp_text, CpuWeight, nice,
}
use layer_cake.Cgroups.Files.{
  OnHost, put, when, if_some, Files, flagged, given, Wrote, put-Wrote, when-Wrote, if_some-Wrote,
  nothing-Wrote,
}

pub record CpuController : Type 0 where
  pub subtree_control : Bool
  pub weight : Option CpuWeight
  pub max : Option (Resource ℕ × ℕ)
  pub max_burst : Option ℕ
  pub uclamp_min : Option (Resource UclampValue)
  pub uclamp_max : Option (Resource UclampValue)
  pub is_idle : Option Bool

abbrev pub default : CpuController
default = record {
  subtree_control = false;
  weight = none;
  max = none;
  max_burst = none;
  uclamp_min = none;
  uclamp_max = none;
  is_idle = none;
}

unfoldable pub subtree_control : Bool → CpuController → CpuController
subtree_control b c = record c { subtree_control = b }

unfoldable pub weight : CpuWeight → CpuController → CpuController
weight x c = record c { weight = some x }

unfoldable pub clear_weight : CpuController → CpuController
clear_weight c = record c { weight = none }

unfoldable pub max : Resource ℕ → ℕ → CpuController → CpuController
max cpu_time interval c = record c { max = some (cpu_time, interval) }

unfoldable pub clear_max : CpuController → CpuController
clear_max c = record c { max = none }

unfoldable pub max_burst : ℕ → CpuController → CpuController
max_burst x c = record c { max_burst = some x }

unfoldable pub clear_max_burst : CpuController → CpuController
clear_max_burst c = record c { max_burst = none }

unfoldable pub uclamp_min : Resource UclampValue → CpuController → CpuController
uclamp_min x c = record c { uclamp_min = some x }

unfoldable pub clear_uclamp_min : CpuController → CpuController
clear_uclamp_min c = record c { uclamp_min = none }

unfoldable pub uclamp_max : Resource UclampValue → CpuController → CpuController
uclamp_max x c = record c { uclamp_max = some x }

unfoldable pub clear_uclamp_max : CpuController → CpuController
clear_uclamp_max c = record c { uclamp_max = none }

unfoldable pub idle : Bool → CpuController → CpuController
idle x c = record c { is_idle = some x }

unfoldable pub clear_idle : CpuController → CpuController
clear_idle c = record c { is_idle = none }

module _ (files : FileKernel) (fuel : ℕ) (format : ℕ → Bytes) (format_signed : ℤ → Bytes) where
  -- The arms of the `match` on a weight.
  unfoldable pub put_weight : ℕ → CpuWeight → OnHost files fuel (Unit {0})
  put_weight dir (CpuWeight.weight v) = put files fuel dir (codes "cpu.weight") (format v)
  put_weight dir (nice v) = put files fuel dir (codes "cpu.weight.nice") (format_signed v)

  -- The time of `cpu.max`.
  unfoldable pub put_max : ℕ → Resource ℕ × ℕ → OnHost files fuel (Unit {0})
  unfolding and_drop write_checked into_str
  put_max dir (time, duration) = do
    fd ← retried syscall fuel (
        FileKernel.openat2 files dir (codes "cpu.max") (o_wronly ∷ o_cloexec ∷ [])
          (resolve_beneath ∷ resolve_no_magiclinks ∷ resolve_no_symlinks ∷ []))
    and_drop files fd (
        write_checked files syscall incomplete_write fuel fd
          (into_str format time ++ codes " " ++ format duration))

  -- The arms of a `match` on a clamp.
  unfoldable pub put_clamp : Bytes → ℕ → Resource UclampValue → OnHost files fuel (Unit {0})
  unfolding clamp_text
  put_clamp path dir (value u) = put files fuel dir path (clamp_text format u)
  put_clamp path dir Resource.max = put files fuel dir path (codes "max")

  -- `apply_to_cgroup`
  unfoldable pub apply_to_cgroup : ℕ → CpuController → OnHost files fuel (Unit {0})
  unfolding when if_some
  apply_to_cgroup dir c = do
    when files fuel c.subtree_control
        (put files fuel dir (codes "cgroup.subtree_control") (codes "+cpu"))
    if_some files fuel c.weight (put_weight dir)
    if_some files fuel c.max (put_max dir)
    if_some files fuel c.max_burst (λ x. put files fuel dir (codes "cpu.max.burst") (format x))
    if_some files fuel c.uclamp_min (put_clamp (codes "cpu.uclamp.min") dir)
    if_some files fuel c.uclamp_max (put_clamp (codes "cpu.uclamp.max") dir)
    if_some files fuel c.is_idle (λ x. put files fuel dir (codes "cpu.idle") (switch x))
    pure tt

-- The files that are to be written, in order.
module _ (format : ℕ → Bytes) (format_signed : ℤ → Bytes) where
  abbrev weight_file : CpuWeight → Bytes × Bytes
  weight_file (CpuWeight.weight v) = (codes "cpu.weight", format v)
  weight_file (nice v) = (codes "cpu.weight.nice", format_signed v)

  abbrev max_file : Resource ℕ × ℕ → Bytes × Bytes
  max_file (time, duration) =
      (codes "cpu.max", into_str format time ++ codes " " ++ format duration)

  abbrev clamp_file : Bytes → Resource UclampValue → Bytes × Bytes
  clamp_file path (value u) = (path, clamp_text format u)
  clamp_file path Resource.max = (path, codes "max")

  abbrev pub plan : CpuController → Files
  plan c =
      (flagged c.subtree_control (codes "cgroup.subtree_control", codes "+cpu")
        (given c.weight (weight_file) (
          given c.max (max_file) (
            given c.max_burst (λ x. (codes "cpu.max.burst", format x))
              (given c.uclamp_min (clamp_file (codes "cpu.uclamp.min")) (
                given c.uclamp_max (clamp_file (codes "cpu.uclamp.max"))
                  (given c.is_idle (λ x. (codes "cpu.idle", switch x)) [])))))))

module _ (files : FileKernel) (fuel : ℕ) (format : ℕ → Bytes) (format_signed : ℤ → Bytes)
    (k : Settles files fuel) where
  put_weight-Wrote :
      (dir : ℕ) (w : CpuWeight)
      → Gives
          (λ _.
            WroteBeneath files dir
              (weight_file format format_signed w).0
              (weight_file format format_signed w).1)
          (put_weight files fuel format format_signed dir w)
  unfolding put_weight
  put_weight-Wrote dir (CpuWeight.weight v) = put-Wrote files fuel k dir _
  put_weight-Wrote dir (nice v) = put-Wrote files fuel k dir _

  put_clamp-Wrote :
      (path : Bytes) (dir : ℕ) (u : Resource UclampValue)
      → Gives
          (λ _.
            WroteBeneath files dir
              (clamp_file format format_signed path u).0
              (clamp_file format format_signed path u).1)
          (put_clamp files fuel format format_signed path dir u)
  unfolding put_clamp
  put_clamp-Wrote path dir (value u) = put-Wrote files fuel k dir _
  put_clamp-Wrote path dir Resource.max = put-Wrote files fuel k dir _

  put_max-Wrote :
      (dir : ℕ) (x : Resource ℕ × ℕ)
      → Gives
          (λ _.
            WroteBeneath files dir
              (max_file format format_signed x).0
              (max_file format format_signed x).1)
          (put_max files fuel format format_signed dir x)
  unfolding put_max
  put_max-Wrote dir (time, duration) =
      bind-Gives _ _ _ _ (opened-Gives files _ fuel k dir _ _ _) (λ fd a.
        and_drop-Gives files _ fd _ (
          weaken-Gives _ _ _ (write_checked-WroteWhole files syscall incomplete_write fuel k fd _)
            (λ _ w. (fd, a, w))))

  pub apply_to_cgroup-Wrote :
      (dir : ℕ) (c : CpuController)
      → Gives
          (λ _. Wrote files fuel k dir (plan format format_signed c))
          (apply_to_cgroup files fuel format format_signed dir c)
  unfolding apply_to_cgroup
  apply_to_cgroup-Wrote dir c = when-Wrote files fuel k dir _ _ _ _ (
      if_some-Wrote files fuel k dir c.weight _ _ _ _ (put_weight-Wrote dir) (
        if_some-Wrote files fuel k dir c.max _ _ _ _ (put_max-Wrote dir) (
          if_some-Wrote files fuel k dir c.max_burst _ _ _ _ (λ x. put-Wrote files fuel k dir _)
            (if_some-Wrote files fuel k dir c.uclamp_min _ _ _ _ (put_clamp-Wrote _ dir) (
              if_some-Wrote files fuel k dir c.uclamp_max _ _ _ _ (put_clamp-Wrote _ dir) (
                if_some-Wrote files fuel k dir c.is_idle _ _ _ _ (λ x. put-Wrote files fuel k dir _)
                  (nothing-Wrote files fuel k dir)))))))
