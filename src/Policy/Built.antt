-- ===== src/Policy/Built.antt =====
-- Every policy that the builder of policy/mod.rs gives has passed the checks of its mounts and file
-- descriptors.
use mathlib.Core.Path.{subst}
use layer_cake.Prelude.{
  ℕ, ◌≡◌, refl, ap, sym, ◌∙◌, Bool, true, Bool-cases, inl, inr, Result, ok, err,
}
use layer_cake.Prelude.Int as Int
use layer_cake.SortedMap.{IsSorted}
use layer_cake.SortedMap.Laws.{insert-IsSorted, remove-IsSorted}
use layer_cake.Paths.Guest as Guest
use layer_cake.Paths.Guest.{GuestInner}
use layer_cake.Mounts.{Mount}
use layer_cake.Mounts.Tree.{MountTree, empty, mount, unmount, clear, is_valid}
use layer_cake.Mounts.Valid.{NoneUnderHost, total}
use layer_cake.Mounts.TreeLaws.{guest-IsOrder, is_valid_outcome}
use layer_cake.FdPolicy as FdPolicy
use layer_cake.FdPolicy.{RawFd, ignore, map, ignore_fd, map_fd}
use layer_cake.FdPolicy.Edits.{fd-IsOrder}
use layer_cake.Rlimits.{Rlimits}
use layer_cake.Scheduler.{Scheduler}
use layer_cake.Policy.{
  Policy, PolicyError, Keyring, default, mount_tree, fd_policy, set_cgroups, namespace,
  set_target_capabilities, new_session, keyring, rlimits, scheduler, seccomp_filter,
  clear_seccomp_filter,
}

-- A mount tree that the methods of `MountTree` make of another one.
pub data Edited (t : MountTree) : MountTree → Type 0 where
  unchanged : Edited t t
  emptied : Edited t empty
  mounted : {u : MountTree} (m : Mount) (path : GuestInner) → Edited t u → Edited t (mount m path u)
  unmounted : {u : MountTree} (path : GuestInner) → Edited t u → Edited t (unmount path u)
  cleared : {u : MountTree} → Edited t u → Edited t (clear u)
  checked : {u : MountTree} → Edited t u → Edited t (is_valid u).0

-- A file descriptor policy that the methods of `FdPolicy` make of another one.
pub data EditedFds (p : FdPolicy.Policy) : FdPolicy.Policy → Type 0 where
  unchanged : EditedFds p p
  emptied : EditedFds p FdPolicy.empty
  ignored : {q : FdPolicy.Policy} (fd : RawFd) → EditedFds p q → EditedFds p (ignore_fd fd q)
  mapped :
      {q : FdPolicy.Policy} (from : ℕ) (fd : RawFd) → EditedFds p q → EditedFds p (map_fd from fd q)
  closed : {q : FdPolicy.Policy} (fd : RawFd) → EditedFds p q → EditedFds p (FdPolicy.close fd q)
  cleared : {q : FdPolicy.Policy} → EditedFds p q → EditedFds p (FdPolicy.clear q)

module _ {N C K F : Type 0} where
  -- A policy that the builder gives.
  pub data Built : Policy N C K F → Type 0 where
    default_policy : (n : N) (c : C) (k : K) → Built (default n c k)
    with_mount_tree :
        {p q : Policy N C K F} (configure : MountTree → MountTree)
        → ((t : MountTree) → Edited t (configure t))
        → mount_tree configure p ≡ ok q
        → Built p
        → Built q
    with_fd_policy :
        {p q : Policy N C K F} (configure : FdPolicy.Policy → FdPolicy.Policy)
        → ((l : FdPolicy.Policy) → EditedFds l (configure l))
        → fd_policy configure p ≡ ok q
        → Built p
        → Built q
    with_cgroups : {p : Policy N C K F} (c : C) → Built p → Built (set_cgroups c p)
    with_namespace : {p : Policy N C K F} (f : N → N) → Built p → Built (namespace f p)
    with_capabilities : {p : Policy N C K F} (k : K) → Built p → Built (set_target_capabilities k p)
    with_session : {p : Policy N C K F} (b : Bool) → Built p → Built (new_session b p)
    with_keyring : {p : Policy N C K F} (f : Keyring → Keyring) → Built p → Built (keyring f p)
    with_rlimits : {p : Policy N C K F} (f : Rlimits → Rlimits) → Built p → Built (rlimits f p)
    with_scheduler :
        {p : Policy N C K F} (f : Scheduler → Scheduler) → Built p → Built (scheduler f p)
    with_filter : {p : Policy N C K F} (f : F) → Built p → Built (seccomp_filter f p)
    without_filter : {p : Policy N C K F} → Built p → Built (clear_seccomp_filter p)

abbrev pub IsGoodTree : MountTree → Type 0
IsGoodTree t =
    IsSorted Guest.cmp t.tree × NoneUnderHost t.tree × (t.host_mount_count ≡ total t.tree)

abbrev pub IsGoodFds : FdPolicy.Policy → Type 0
IsGoodFds l = IsSorted Int.cmp l × (FdPolicy.is_valid_fd_policy l ≡ true)

empty-IsGoodTree : IsGoodTree empty
unfolding empty total
empty-IsGoodTree = (tt, (λ i j a b e _ _ _. cc), refl)

empty-IsGoodFds : IsGoodFds FdPolicy.empty
unfolding FdPolicy.empty FdPolicy.is_valid_fd_policy FdPolicy.valid_loop
empty-IsGoodFds = (tt, refl)

Edited-IsSorted :
    {t u : MountTree} → Edited t u → IsSorted Guest.cmp t.tree → IsSorted Guest.cmp u.tree
unfolding empty mount unmount clear
Edited-IsSorted unchanged s = s
Edited-IsSorted emptied s = tt
Edited-IsSorted (mounted {u} m path e) s =
    insert-IsSorted Guest.cmp guest-IsOrder path m u.tree (Edited-IsSorted e s)
Edited-IsSorted (unmounted {u} path e) s =
    remove-IsSorted Guest.cmp guest-IsOrder path u.tree (Edited-IsSorted e s)
Edited-IsSorted (cleared e) s = tt
Edited-IsSorted (checked {u} e) s =
    let sorted = Edited-IsSorted e s in
    subst (IsSorted Guest.cmp) (sym ((is_valid_outcome u sorted).0)) sorted

EditedFds-IsSorted :
    {p q : FdPolicy.Policy} → EditedFds p q → IsSorted Int.cmp p → IsSorted Int.cmp q
unfolding FdPolicy.empty ignore_fd map_fd FdPolicy.close FdPolicy.clear
EditedFds-IsSorted unchanged s = s
EditedFds-IsSorted emptied s = tt
EditedFds-IsSorted (ignored {q} fd e) s =
    insert-IsSorted Int.cmp fd-IsOrder fd ignore q (EditedFds-IsSorted e s)
EditedFds-IsSorted (mapped {q} from fd e) s =
    insert-IsSorted Int.cmp fd-IsOrder fd (map from) q (EditedFds-IsSorted e s)
EditedFds-IsSorted (closed {q} fd e) s =
    remove-IsSorted Int.cmp fd-IsOrder fd q (EditedFds-IsSorted e s)
EditedFds-IsSorted (cleared e) s = tt

module _ {N C K F : Type 0} where
  ok-inj :
      {a b : Policy N C K F} → ◌≡◌ {A = Result (Policy N C K F) PolicyError} (ok a) (ok b) → a ≡ b
  ok-inj e = cc

  err-ne-ok :
      {x : PolicyError} {b : Policy N C K F}
      → ◌≡◌ {A = Result (Policy N C K F) PolicyError} (err x) (ok b)
      → ⊥
  err-ne-ok e = cc

  mount_tree-ok :
      (configure : MountTree → MountTree) (p q : Policy N C K F)
      → mount_tree configure p ≡ ok q
      → ((is_valid (configure p.mount_tree)).1 ≡ true)
        × (q ≡ record p { mount_tree = (is_valid (configure p.mount_tree)).0 })
  unfolding mount_tree
  mount_tree-ok configure p q h = elim (Bool-cases (is_valid (configure p.mount_tree)).1) [
    | inl e ↦ (e, sym (ok-inj (rw (e, mount_tree) at h)))
    | inr e ↦ absurd (err-ne-ok (rw (e, mount_tree) at h))
  ]

  fd_policy-ok :
      (configure : FdPolicy.Policy → FdPolicy.Policy) (p q : Policy N C K F)
      → fd_policy configure p ≡ ok q
      → (FdPolicy.is_valid_fd_policy (configure p.file_descriptors) ≡ true)
        × (q ≡ record p { file_descriptors = configure p.file_descriptors })
  unfolding fd_policy
  fd_policy-ok configure p q h =
      elim (Bool-cases (FdPolicy.is_valid_fd_policy (configure p.file_descriptors))) [
        | inl e ↦ (e, sym (ok-inj (rw (e, fd_policy) at h)))
        | inr e ↦ absurd (err-ne-ok (rw (e, fd_policy) at h))
      ]

  abbrev pub IsGood : Policy N C K F → Type 0
  IsGood p = IsGoodTree p.mount_tree × IsGoodFds p.file_descriptors

  mount_tree-IsGood :
      (configure : MountTree → MountTree) (p q : Policy N C K F)
      → ((t : MountTree) → Edited t (configure t))
      → mount_tree configure p ≡ ok q
      → IsGood p
      → IsGood q
  mount_tree-IsGood configure p q edits h good =
      let (valid, same) = mount_tree-ok configure p q h in
      let sorted = Edited-IsSorted (edits p.mount_tree) good.0.0 in
      let (kept, none_under, count, rest) = is_valid_outcome (configure p.mount_tree) sorted in
      subst IsGood (sym same) (
        (
          subst (IsSorted Guest.cmp) (sym kept) sorted,
          subst NoneUnderHost (sym kept) (none_under.0 valid),
          count valid ∙ ap total (sym kept),
        ),
        good.1,
      )

  fd_policy-IsGood :
      (configure : FdPolicy.Policy → FdPolicy.Policy) (p q : Policy N C K F)
      → ((l : FdPolicy.Policy) → EditedFds l (configure l))
      → fd_policy configure p ≡ ok q
      → IsGood p
      → IsGood q
  fd_policy-IsGood configure p q edits h good =
      let (valid, same) = fd_policy-ok configure p q h in
      subst IsGood (sym same)
        (good.0, (EditedFds-IsSorted (edits p.file_descriptors) good.1.0, valid))

  -- In every policy that the builder gives, the mount tree is in the order of its paths, has no
  -- mount under a mount that is not synthetic and holds the count of the host mounts of its
  -- overlays, and the file descriptor policy is in order and valid.
  pub Built-IsGood : {p : Policy N C K F} → Built p → IsGood p
  unfolding default set_cgroups namespace set_target_capabilities new_session keyring rlimits
      scheduler seccomp_filter clear_seccomp_filter
  Built-IsGood (default_policy n c k) = (empty-IsGoodTree, empty-IsGoodFds)
  Built-IsGood (with_mount_tree {p} {q} f edits h b) =
      mount_tree-IsGood f p q edits h (Built-IsGood b)
  Built-IsGood (with_fd_policy {p} {q} f edits h b) =
      fd_policy-IsGood f p q edits h (Built-IsGood b)
  Built-IsGood (with_cgroups c b) = Built-IsGood b
  Built-IsGood (with_namespace f b) = Built-IsGood b
  Built-IsGood (with_capabilities k b) = Built-IsGood b
  Built-IsGood (with_session s b) = Built-IsGood b
  Built-IsGood (with_keyring f b) = Built-IsGood b
  Built-IsGood (with_rlimits f b) = Built-IsGood b
  Built-IsGood (with_scheduler f b) = Built-IsGood b
  Built-IsGood (with_filter f b) = Built-IsGood b
  Built-IsGood (without_filter b) = Built-IsGood b
