-- ===== src/Mounts/TreeLaws.antt =====
-- The methods of `MountTree` of policy/mounts.rs as operations on an ordered map.
use layer_cake.Prelude.{
  ◌≢◌, ◌≡◌, ◌↔◌, refl, sym, ◌∙◌, true, false, none, some, Option-cases, inl, inr,
}
use Prim.Native.Nat.Ordering.{eq}
use layer_cake.SortedMap.{lookup, IsSorted}
use layer_cake.SortedMap.Laws.{
  IsOrder, insert-IsSorted, remove-IsSorted, lookup-insert, lookup-remove,
}
use layer_cake.Paths.Guest.{GuestInner, cmp}
use layer_cake.Paths.Order.{cmp-lt_trans, cmp-lt_of_gt, cmp-gt_of_lt, cmp_refl_guest, cmp-of_eq}
use layer_cake.Mounts.{Mount}
use layer_cake.Mounts.Validate.{is_valid_mount_tree}
use layer_cake.Mounts.Tree.{MountTree, mount, unmount, is_valid}
use layer_cake.Mounts.Valid.{
  NoneUnderHost, total, is_valid_mount_tree_iff, is_valid_mount_tree-some,
}

pub guest-IsOrder : IsOrder cmp
guest-IsOrder = record {
  same = cmp_refl_guest;
  gt_of_lt = cmp-gt_of_lt;
  lt_of_gt = cmp-lt_of_gt;
  lt_trans = cmp-lt_trans;
  alike = cmp-of_eq;
}

-- On a tree in order, `mount` keeps the order; afterwards a path that compares equal to the given
-- path has the given mount, and every other path what it had.
pub mount-lookup :
    (t : MountTree) (m : Mount) (path q : GuestInner)
    → IsSorted cmp t.tree
    → IsSorted cmp (mount m path t).tree
      × (lookup cmp q (mount m path t).tree
          ≡ elim (cmp q path) [ eq ↦ some m | _ ↦ lookup cmp q t.tree ])
unfolding mount
mount-lookup t m path q s = (
  insert-IsSorted cmp guest-IsOrder path m t.tree s,
  lookup-insert cmp guest-IsOrder path q m t.tree s,
)

-- On a tree in order, `unmount` keeps the order; afterwards a path that compares equal to the given
-- path has no mount, and every other path what it had.
pub unmount-lookup :
    (t : MountTree) (path q : GuestInner)
    → IsSorted cmp t.tree
    → IsSorted cmp (unmount path t).tree
      × (lookup cmp q (unmount path t).tree
          ≡ elim (cmp q path) [ eq ↦ none | _ ↦ lookup cmp q t.tree ])
unfolding unmount
unmount-lookup t path q s = (
  remove-IsSorted cmp guest-IsOrder path t.tree s,
  lookup-remove cmp guest-IsOrder path q t.tree s,
)

-- On a tree in order, `is_valid` leaves the mounts as they are, and returns true exactly if no mount
-- lies under a mount that is not synthetic; then it stores the sum over all overlays, else it keeps
-- the count.
pub is_valid_outcome :
    (t : MountTree)
    → IsSorted cmp t.tree
    → ((is_valid t).0.tree ≡ t.tree)
      × (((is_valid t).1 ≡ true) ↔ NoneUnderHost t.tree)
      × ((is_valid t).1 ≡ true → (is_valid t).0.host_mount_count ≡ total t.tree)
      × ((is_valid t).1 ≡ false → (is_valid t).0 ≡ t)
unfolding is_valid
is_valid_outcome t s = elim (Option-cases (is_valid_mount_tree t.tree)) [
  | inl e ↦ rw (e, is_valid) (refl, ((λ h. cc), λ h. absurd (refused e h)), (λ h. cc), λ h. refl)
  | inr (n, e) ↦
      rw (e, is_valid)
        (
          refl,
          ((λ h. (is_valid_mount_tree-some t.tree n s e).0), λ h. refl),
          (λ h. (is_valid_mount_tree-some t.tree n s e).1),
          λ h. cc,
        )
]
  where
    refused : is_valid_mount_tree t.tree ≡ none → NoneUnderHost t.tree → ⊥
    refused e h = absurd_option (sym e ∙ (is_valid_mount_tree_iff t.tree s).1 h)
      where
        absurd_option : none ≢ some (total t.tree)
        absurd_option q = cc
