-- ===== src/Examples/MountTrees.antt =====
-- Mount trees at concrete inputs.
use layer_cake.Prelude.{bytes_eq, ◌≡◌, ◌↔◌, refl, true, false, some, [], ◌∷◌}
use layer_cake.SortedMap.{IsSorted}
use layer_cake.Paths.Std.{
  components, split_slash, piece, pieces, relative, is_absolute, cmp_bytes, cmp_component,
  cmp_components,
}
use layer_cake.Paths.Guest.{guest_components, cmp}
use layer_cake.Mounts.Sources
use layer_cake.Mounts.Validate.{is_valid_mount_tree, Entries}
use layer_cake.Mounts.Tree.{MountTree, is_valid}
use layer_cake.Mounts.Valid.{NoneUnderHost, total, is_valid_mount_tree_iff}
use layer_cake.Mounts.TreeLaws.{is_valid_outcome}
use layer_cake.Examples.GuestPaths.{path_a, path_abc}

-- A directory of the host at `/a`, and an empty directory below it at `/a/b/c`.
abbrev entries : Entries
entries = (path_a, Sources.read_only_directory 3) ∷ (path_abc, Sources.empty_directory 493) ∷ []

abbrev tree : MountTree
tree = record { tree = entries; host_mount_count = 0 }

entries-IsSorted : IsSorted cmp entries
unfolding cmp guest_components components is_absolute split_slash piece pieces relative cmp_bytes
    cmp_component cmp_components bytes_eq
entries-IsSorted = ((refl, tt), (tt, tt))

is_valid_mount_tree_iff_example :
    (is_valid_mount_tree entries ≡ some (total entries)) ↔ NoneUnderHost entries
is_valid_mount_tree_iff_example = is_valid_mount_tree_iff entries entries-IsSorted

is_valid_outcome_example :
    ((is_valid tree).0.tree ≡ entries)
    × (((is_valid tree).1 ≡ true) ↔ NoneUnderHost entries)
    × ((is_valid tree).1 ≡ true → (is_valid tree).0.host_mount_count ≡ total entries)
    × ((is_valid tree).1 ≡ false → (is_valid tree).0 ≡ tree)
is_valid_outcome_example = is_valid_outcome tree entries-IsSorted
