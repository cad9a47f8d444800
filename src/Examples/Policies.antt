-- ===== src/Examples/Policies.antt =====
-- A policy made by the builder.
use layer_cake.Prelude.{◌≡◌, refl, false, ok}
use layer_cake.SortedMap.{insert}
use layer_cake.Mounts.Sources
use layer_cake.Mounts.Tree.{MountTree, empty, mount, is_valid}
use layer_cake.Mounts.Validate.{is_valid_mount_tree, validate_loop, enter}
use layer_cake.Policy.{Policy, default, mount_tree, new_session}
use layer_cake.Policy.Built.{
  Edited, mounted, Built, default_policy, with_mount_tree, with_session, IsGood, Built-IsGood,
}
use layer_cake.Examples.GuestPaths.{path_a}

abbrev Plain : Type 0
Plain = Policy (Unit {0}) (Unit {0}) (Unit {0}) (Unit {0})

abbrev start : Plain
unfolding default
start = default tt tt tt

abbrev configure : MountTree → MountTree
unfolding mount
configure t = mount Sources.mqueue path_a t

abbrev with_mqueue : Plain
unfolding start configure is_valid
with_mqueue = record start { mount_tree = (is_valid (configure start.mount_tree)).0 }

with_mqueue-mount_tree : mount_tree configure start ≡ ok with_mqueue
unfolding start configure with_mqueue mount_tree is_valid mount empty is_valid_mount_tree
    validate_loop enter insert default
with_mqueue-mount_tree = refl

with_mqueue-Built : Built with_mqueue
unfolding start configure
with_mqueue-Built =
    with_mount_tree configure (λ t. mounted Sources.mqueue path_a Edited.unchanged)
      with_mqueue-mount_tree (default_policy tt tt tt)

Built-IsGood_example : IsGood (new_session false with_mqueue)
Built-IsGood_example = Built-IsGood (with_session false with_mqueue-Built)
