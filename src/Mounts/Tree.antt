-- ===== src/Mounts/Tree.antt =====
-- `MountTree` of crates/bubblebox/src/platform/linux/policy/mounts.rs.
use layer_cake.Prelude.{ℕ, Bool, true, false, none, some, [], length}
use layer_cake.Paths.Guest.{GuestInner, cmp}
use layer_cake.SortedMap.{insert, remove}
use layer_cake.Mounts.{Mount}
use layer_cake.Mounts.Validate.{Entries, is_valid_mount_tree}

pub record MountTree : Type 0 where
  pub tree : Entries
  pub host_mount_count : ℕ

unfoldable pub empty : MountTree
empty = record { tree = []; host_mount_count = 0 }

unfoldable pub size : MountTree → ℕ
size t = length t.tree

unfoldable pub mount : Mount → GuestInner → MountTree → MountTree
mount m path t = record t { tree = insert cmp path m t.tree }

unfoldable pub unmount : GuestInner → MountTree → MountTree
unmount path t = record t { tree = remove cmp path t.tree }

unfoldable pub clear : MountTree → MountTree
clear t = record t { tree = [] }

-- `is_valid(&mut self)`: the count is stored where the tree is valid.
unfoldable pub is_valid : MountTree → MountTree × Bool
unfolding is_valid_mount_tree
is_valid t = elim (is_valid_mount_tree t.tree) [
  | some n ↦ (record t { host_mount_count = n }, true)
  | none ↦ (t, false)
]
