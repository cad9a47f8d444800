-- ===== src/Spawn/Mounts/Upper.antt =====
-- The upper directories that `finish_overlay_mount_resolution` of
-- crates/bubblebox/src/platform/linux/spawn/mounts.rs sets.
use layer_cake.Prelude.{
  ℕ, zero, suc, ◌+◌, ◌≤◌, ◌<◌, ◌≡◌, refl, true, Bytes, List, [], ◌∷◌, length, get_elem?, Option,
  none, some, arith,
}
use layer_cake.Meowix.Act.{is_intr}
use layer_cake.Prelude.Text.{codes}
use layer_cake.Meowix.Answers.{Answered, call-Answered, retried-Answered}
use layer_cake.Mounts.Attributes.{into_mount_attr}
use layer_cake.Spawn.Mounts.Bind.{upper_attributes}
use layer_cake.Spawn.Mounts.Made.{IsPlain, IsMountOf, AreUpper, HasUpper}
use layer_cake.Meowix.Gives.{Gives, Any, bind-Gives, then-Gives, pure-Gives, weaken-Gives}
use layer_cake.Mounts.{OwnedFd, UpperDirs, UpperDirsFd, TmpfsSize}
use layer_cake.Spawn.Mounts.{
  o_path, o_directory, o_cloexec, resolve_no_magiclinks, resolve_beneath, resolve_no_xdev, Flags,
  MountKernel,
}
use layer_cake.Spawn.Mounts.Capture.{upper_parent}
use layer_cake.Spawn.Mounts.Overlays.{
  directory_flags, rwxu, get_unchecked, open_beneath, check_identity, set_host_upper, mount_tmpfs,
  set_tmpfs_upper, finish_upper,
}
use layer_cake.Spawn.Mounts.Opened.{same_file_identity-Gives}
use layer_cake.Spawn.Mounts.Nonbinds.{apply_tmpfs_size-Gives}
use layer_cake.Spawn.Mounts.Steps.{step_rules, and_close-Gives, or_close-Gives}

get_elem?-some :
    {A : Type 0} (xs : List A) (i : ℕ) → i < length xs → (x : A) × (get_elem? xs i ≡ some x)
get_elem?-some [] i h = absurd (omega arith)
get_elem?-some (x ∷ xs) zero h = (x, refl)
get_elem?-some (x ∷ xs) (suc i) h = get_elem?-some xs i (omega arith)

module _ (format : ℕ → Bytes) (kernel : MountKernel) (fuel : ℕ)
    (pending : MountKernel.State kernel → ℕ)
    (openat2_falls : (dir : ℕ) (name : Bytes) (flags resolve : Flags) (s : MountKernel.State kernel)
      → is_intr (MountKernel.openat2 kernel dir name flags resolve s).0 ≡ true
      → pending (MountKernel.openat2 kernel dir name flags resolve s).1 < pending s)
    (enough : (s : MountKernel.State kernel) → pending s < fuel) where
  open kernel use {
    State, fsopen, fsconfig_set_flag, fsconfig_set_fd, fsconfig_cmd_create_excl, mkdirat, openat2,
  }

  pub get_unchecked-Gives :
      (fds : List OwnedFd) (i : ℕ)
      → i < length fds
      → Gives (λ m. get_elem? fds i ≡ some m) (get_unchecked format kernel fuel fds i)
  get_unchecked-Gives fds i h =
      let (x, e) = get_elem?-some fds i h in record { at = λ s. rw (e, get_unchecked) refl }

  abbrev beneath : Flags
  beneath = resolve_no_magiclinks ∷ resolve_beneath ∷ resolve_no_xdev ∷ []

  open_beneath-Gives :
      (parent : OwnedFd) (name : Bytes)
      → Gives
          (Answered (openat2 parent name directory_flags beneath))
          (open_beneath format kernel fuel parent name)
  open_beneath-Gives parent name =
      retried-Answered _ _ pending (λ s. openat2_falls parent name _ _ s) fuel enough

  check_identity-Gives :
      (dir expected : OwnedFd) → Gives Any (check_identity format kernel fuel dir expected)
  unfolding check_identity
  check_identity-Gives dir expected = search (step_rules, same_file_identity-Gives)

  set_host_upper-Gives :
      (fs : ℕ) (u : UpperDirsFd) (m : OwnedFd)
      → Gives
          (λ _. AreUpper kernel fs m u.upperdir u.workdir directory_flags beneath)
          (set_host_upper format kernel fuel fs u m)
  unfolding set_host_upper
  set_host_upper-Gives fs u m = bind-Gives _ _ _ _ (open_beneath-Gives m u.workdir) (λ w work.
      then-Gives _ _ _ (or_close-Gives kernel _ _ _ (check_identity-Gives w u.workdir_fd)) (λ _.
        bind-Gives _ _ _ _ (or_close-Gives kernel _ _ _ (open_beneath-Gives m u.upperdir))
          (λ p upper.
            then-Gives _ _ _
              (or_close-Gives kernel _ _ _
                (or_close-Gives kernel _ _ _ (check_identity-Gives p u.upperdir_fd)))
              (λ _.
                bind-Gives _ _ _ _
                  (or_close-Gives kernel _ _ _ (and_close-Gives kernel _ _ _ (call-Answered _ _)))
                  (λ _ set.
                    weaken-Gives _ _ _ (and_close-Gives kernel _ _ _ (call-Answered _ _))
                      (λ _ set'. (p, w, upper, work, set', set)))))))

  mount_tmpfs-Gives :
      (size : TmpfsSize) (n : Option ℕ)
      → Gives
          (IsMountOf kernel
            (codes "tmpfs")
            (IsPlain kernel)
            fsconfig_cmd_create_excl
            (into_mount_attr upper_attributes))
          (mount_tmpfs format kernel fuel size n)
  unfolding mount_tmpfs
  mount_tmpfs-Gives size n = bind-Gives _ _ _ _ (call-Answered _ _) (λ fs opened.
      and_close-Gives kernel _ _ _ (
        then-Gives _ _ _ (apply_tmpfs_size-Gives format kernel fs size n) (λ _.
          bind-Gives _ _ _ _ (call-Answered _ _) (λ _ created.
            weaken-Gives _ _ _ (call-Answered _ _) (λ _ made. (fs, opened, tt, created, made))))))

  -- What is made in the new tmpfs of an overlay, and set.
  abbrev NewUpper : ℕ → OwnedFd → Type 0
  NewUpper fs t =
      Answered (mkdirat t (codes "upperdir") rwxu) tt
      × Answered (mkdirat t (codes "workdir") rwxu) tt
      × AreUpper kernel fs t (codes "upperdir") (codes "workdir")
          (o_path ∷ o_directory ∷ o_cloexec ∷ []) (resolve_beneath ∷ resolve_no_magiclinks ∷ [])

  set_tmpfs_upper-Gives :
      (fs : ℕ) (t : OwnedFd) → Gives (λ _. NewUpper fs t) (set_tmpfs_upper format kernel fuel fs t)
  unfolding set_tmpfs_upper
  set_tmpfs_upper-Gives fs t = bind-Gives _ _ _ _ (call-Answered _ _) (λ _ made.
      bind-Gives _ _ _ _ (call-Answered _ _) (λ _ made'.
        bind-Gives _ _ _ _ (call-Answered _ _) (λ p upper.
          bind-Gives _ _ _ _ (or_close-Gives kernel _ _ _ (call-Answered _ _)) (λ w work.
            bind-Gives _ _ _ _
              (or_close-Gives kernel _ _ _ (and_close-Gives kernel _ _ _ (call-Answered _ _)))
              (λ _ set.
                weaken-Gives _ _ _ (and_close-Gives kernel _ _ _ (call-Answered _ _))
                  (λ _ set'. (made, made', (p, w, upper, work, set, set'))))))))

  pub finish_upper-Gives :
      (fs : ℕ) (fds : List OwnedFd) (u : Option UpperDirs) (i : ℕ)
      → i + length (upper_parent u) ≤ length fds
      → Gives
          (λ r. (r.0 ≡ i + length (upper_parent u)) × HasUpper kernel fs fds i u)
          (finish_upper format kernel fuel fs fds u i)
  unfolding finish_upper
  finish_upper-Gives fs fds none i h = pure-Gives _ _ (omega arith, tt)
  finish_upper-Gives fs fds (some (UpperDirs.fds u)) i h =
      bind-Gives _ _ _ _ (get_unchecked-Gives fds i (omega (arith, h))) (λ m e.
        bind-Gives _ _ _ _ (set_host_upper-Gives fs u m)
          (λ _ set. pure-Gives _ _ (omega arith, (m, e, set))))
  finish_upper-Gives fs fds (some (UpperDirs.tmpfs size n)) i h =
      bind-Gives _ _ _ _ (mount_tmpfs-Gives size n) (λ t made.
        bind-Gives _ _ _ _ (or_close-Gives kernel _ _ _ (set_tmpfs_upper-Gives fs t))
          (λ _ set. pure-Gives _ _ (omega arith, (t, made, set.0, set.1, set.2))))
