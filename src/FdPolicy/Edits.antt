-- ===== src/FdPolicy/Edits.antt =====
-- The methods of `FdPolicy` of policy/fd.rs as operations on an ordered map.
use layer_cake.Prelude.{sym, ℕ, ◌≡◌, refl, ap, none, some, arith}
use Prim.Native.Nat.Ordering.{lt, eq, gt}
use layer_cake.Prelude.Int.{ℤ, pos, negsuc, cmp}
use layer_cake.SortedMap.{lookup, IsSorted}
use layer_cake.SortedMap.Laws.{
  IsOrder, insert-IsSorted, remove-IsSorted, lookup-insert, lookup-remove,
}
use layer_cake.FdPolicy.{RawFd, ignore, map, Policy, ignore_fd, map_fd, close}

same : (a : ℤ) → cmp a a ≡ eq
unfolding cmp
same (pos a) = ground arith
same (negsuc a) = ground arith

gt_of_lt : (a b : ℤ) → cmp a b ≡ lt → cmp b a ≡ gt
unfolding cmp
gt_of_lt (pos a) (pos b) h = ground arith
gt_of_lt (pos a) (negsuc b) h = cc
gt_of_lt (negsuc a) (pos b) h = refl
gt_of_lt (negsuc a) (negsuc b) h = ground arith

lt_of_gt : (a b : ℤ) → cmp a b ≡ gt → cmp b a ≡ lt
unfolding cmp
lt_of_gt (pos a) (pos b) h = ground arith
lt_of_gt (pos a) (negsuc b) h = refl
lt_of_gt (negsuc a) (pos b) h = cc
lt_of_gt (negsuc a) (negsuc b) h = ground arith

lt_trans : (a b c : ℤ) → cmp a b ≡ lt → cmp b c ≡ lt → cmp a c ≡ lt
unfolding cmp
lt_trans (pos a) (pos b) (pos c) h k = ground arith
lt_trans (negsuc a) (negsuc b) (negsuc c) h k = ground arith
lt_trans (negsuc a) b (pos c) h k = refl
lt_trans (pos a) (negsuc b) c h k = cc
lt_trans a (pos b) (negsuc c) h k = cc

cmp-eq : (a b : ℤ) → cmp a b ≡ eq → a ≡ b
unfolding cmp
cmp-eq (pos a) (pos b) h = ground arith
cmp-eq (pos a) (negsuc b) h = cc
cmp-eq (negsuc a) (pos b) h = cc
cmp-eq (negsuc a) (negsuc b) h = ground arith

pub fd-IsOrder : IsOrder cmp
fd-IsOrder = record {
  same = same;
  gt_of_lt = gt_of_lt;
  lt_of_gt = lt_of_gt;
  lt_trans = lt_trans;
  alike = λ a b c h. ap (cmp c) (sym (cmp-eq a b h));
}

-- On a policy in order, `ignore`, `map` and `close` keep the order; afterwards the given number has
-- the action that was set, or none after `close`, and every other number the action it had.
pub edit-lookup :
    (policy : Policy) (source : ℕ) (fd q : RawFd)
    → IsSorted cmp policy
    → (IsSorted cmp (ignore_fd fd policy)
        × (lookup cmp q (ignore_fd fd policy)
            ≡ elim (cmp q fd) [ eq ↦ some ignore | _ ↦ lookup cmp q policy ]))
      × (IsSorted cmp (map_fd source fd policy)
          × (lookup cmp q (map_fd source fd policy)
              ≡ elim (cmp q fd) [ eq ↦ some (map source) | _ ↦ lookup cmp q policy ]))
      × (IsSorted cmp (close fd policy)
          × (lookup cmp q (close fd policy)
              ≡ elim (cmp q fd) [ eq ↦ none | _ ↦ lookup cmp q policy ]))
unfolding ignore_fd map_fd close
edit-lookup policy source fd q s = (
  (
    insert-IsSorted cmp fd-IsOrder fd ignore policy s,
    lookup-insert cmp fd-IsOrder fd q ignore policy s,
  ),
  (
    insert-IsSorted cmp fd-IsOrder fd (map source) policy s,
    lookup-insert cmp fd-IsOrder fd q (map source) policy s,
  ),
  (remove-IsSorted cmp fd-IsOrder fd policy s, lookup-remove cmp fd-IsOrder fd q policy s),
)
