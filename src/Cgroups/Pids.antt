-- ===== src/Cgroups/Pids.antt =====
-- PidsController of crates/bubblebox/src/platform/linux/cgroups/policy.rs.
use layer_cake.Prelude.{ℕ, Bool, false, Bytes, [], Option, none, some}
use layer_cake.Prelude.Text.{codes}
use layer_cake.Meowix.Gives.{Gives, ◌>>◌, pure}
use layer_cake.Meowix.Files.{FileKernel, Settles}
use layer_cake.Cgroups.Values.{Resource, into_str}
use layer_cake.Cgroups.Files.{
  OnHost, put, when, if_some, Files, flagged, given, Wrote, put-Wrote, when-Wrote, if_some-Wrote,
  nothing-Wrote,
}

pub record PidsController : Type 0 where
  pub subtree_control : Bool
  pub max : Option (Resource ℕ)

abbrev pub default : PidsController
default = record { subtree_control = false; max = none }

unfoldable pub subtree_control : Bool → PidsController → PidsController
subtree_control b c = record c { subtree_control = b }

unfoldable pub max : Resource ℕ → PidsController → PidsController
max x c = record c { max = some x }

unfoldable pub unset_max : PidsController → PidsController
unset_max c = record c { max = none }

module _ (files : FileKernel) (fuel : ℕ) (format : ℕ → Bytes) where
  -- `apply_to_cgroup`
  unfoldable pub apply_to_cgroup : ℕ → PidsController → OnHost files fuel (Unit {0})
  unfolding when if_some
  apply_to_cgroup dir c = do
    when files fuel c.subtree_control
        (put files fuel dir (codes "cgroup.subtree_control") (codes "+pids"))
    if_some files fuel c.max (λ x. put files fuel dir (codes "pids.max") (into_str format x))
    pure tt

-- The files that are to be written, in order.
module _ (format : ℕ → Bytes) where
  abbrev pub plan : PidsController → Files
  plan c =
      (flagged c.subtree_control (codes "cgroup.subtree_control", codes "+pids")
        (given c.max (λ x. (codes "pids.max", into_str format x)) []))

module _ (files : FileKernel) (fuel : ℕ) (format : ℕ → Bytes) (k : Settles files fuel) where
  pub apply_to_cgroup-Wrote :
      (dir : ℕ) (c : PidsController)
      → Gives
          (λ _. Wrote files fuel k dir (plan format c))
          (apply_to_cgroup files fuel format dir c)
  unfolding apply_to_cgroup
  apply_to_cgroup-Wrote dir c = when-Wrote files fuel k dir _ _ _ _ (
      if_some-Wrote files fuel k dir c.max _ _ _ _ (λ x. put-Wrote files fuel k dir _)
        (nothing-Wrote files fuel k dir))
