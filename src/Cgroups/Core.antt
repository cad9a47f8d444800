-- ===== src/Cgroups/Core.antt =====
-- CgroupProperties of crates/bubblebox/src/platform/linux/cgroups/policy.rs.
use layer_cake.Prelude.{ℕ, Bool, false, [], Option, none, some}
use layer_cake.Prelude.Text.{codes}
use layer_cake.Meowix.Gives.{Gives, ◌>>◌, pure}
use layer_cake.Meowix.Files.{FileKernel, Settles}
use layer_cake.Cgroups.Values.{switch}
use layer_cake.Cgroups.Files.{
  OnHost, put, when, if_some, Files, flagged, given, Wrote, put-Wrote, when-Wrote, if_some-Wrote,
  nothing-Wrote,
}

pub record CgroupProperties : Type 0 where
  pub is_threaded : Bool
  pub enable_psi_accounting : Option Bool

abbrev pub default : CgroupProperties
default = record { is_threaded = false; enable_psi_accounting = none }

unfoldable pub threaded : Bool → CgroupProperties → CgroupProperties
threaded b c = record c { is_threaded = b }

unfoldable pub psi_accounting : Bool → CgroupProperties → CgroupProperties
psi_accounting x c = record c { enable_psi_accounting = some x }

unfoldable pub clear_psi_accounting : CgroupProperties → CgroupProperties
clear_psi_accounting c = record c { enable_psi_accounting = none }

module _ (files : FileKernel) (fuel : ℕ) where
  -- `apply_to_cgroup`
  unfoldable pub apply_to_cgroup : ℕ → CgroupProperties → OnHost files fuel (Unit {0})
  unfolding when if_some
  apply_to_cgroup dir c = do
    when files fuel c.is_threaded (put files fuel dir (codes "cgroup.type") (codes "threaded"))
    if_some files fuel c.enable_psi_accounting
        (λ x. put files fuel dir (codes "cgroup.pressure") (switch x))
    pure tt

-- The files that are to be written, in order.
abbrev pub plan : CgroupProperties → Files
plan c =
    (flagged c.is_threaded (codes "cgroup.type", codes "threaded")
      (given c.enable_psi_accounting (λ x. (codes "cgroup.pressure", switch x)) []))

module _ (files : FileKernel) (fuel : ℕ) (k : Settles files fuel) where
  pub apply_to_cgroup-Wrote :
      (dir : ℕ) (c : CgroupProperties)
      → Gives (λ _. Wrote files fuel k dir (plan c)) (apply_to_cgroup files fuel dir c)
  unfolding apply_to_cgroup
  apply_to_cgroup-Wrote dir c = when-Wrote files fuel k dir _ _ _ _ (
      if_some-Wrote files fuel k dir c.enable_psi_accounting _ _ _ _
        (λ x. put-Wrote files fuel k dir _) (nothing-Wrote files fuel k dir))
