-- ===== src/Cgroups/Io.antt =====
-- IoController of crates/bubblebox/src/platform/linux/cgroups/policy.rs.
use layer_cake.Prelude.{ℕ, Bool, false, []}
use layer_cake.Prelude.Text.{codes}
use layer_cake.Meowix.Gives.{Gives, ◌>>◌, pure}
use layer_cake.Meowix.Files.{FileKernel, Settles}
use layer_cake.Cgroups.Files.{
  OnHost, put, when, if_some, Files, flagged, Wrote, when-Wrote, nothing-Wrote,
}

pub record IoController : Type 0 where
  pub subtree_control : Bool

abbrev pub default : IoController
default = record { subtree_control = false }

unfoldable pub subtree_control : Bool → IoController → IoController
subtree_control b c = record c { subtree_control = b }

module _ (files : FileKernel) (fuel : ℕ) where
  -- `apply_to_cgroup`
  unfoldable pub apply_to_cgroup : ℕ → IoController → OnHost files fuel (Unit {0})
  unfolding when if_some
  apply_to_cgroup dir c = do
    when files fuel c.subtree_control
        (put files fuel dir (codes "cgroup.subtree_control") (codes "+io"))
    pure tt

-- The files that are to be written, in order.
abbrev pub plan : IoController → Files
plan c = (flagged c.subtree_control (codes "cgroup.subtree_control", codes "+io") [])

module _ (files : FileKernel) (fuel : ℕ) (k : Settles files fuel) where
  pub apply_to_cgroup-Wrote :
      (dir : ℕ) (c : IoController)
      → Gives (λ _. Wrote files fuel k dir (plan c)) (apply_to_cgroup files fuel dir c)
  unfolding apply_to_cgroup
  apply_to_cgroup-Wrote dir c = when-Wrote files fuel k dir _ _ _ _ (nothing-Wrote files fuel k dir)
