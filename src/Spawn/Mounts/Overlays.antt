-- ===== src/Spawn/Mounts/Overlays.antt =====
-- `finish_overlay_mount_resolution` of crates/bubblebox/src/platform/linux/spawn/mounts.rs.
use layer_cake.Prelude.{
  suc, ℕ, zero, suc, ◌+◌, true, Bytes, List, [], ◌∷◌, length, get_elem?, Option, none, some,
  if◌then◌else◌,
}
use layer_cake.Prelude.Text.{codes}
use layer_cake.Meowix.Act.{done, stuck}
use layer_cake.Meowix.Gives.{◌>>=◌, ◌>>◌, pure, fail}
use layer_cake.Mounts.{OwnedFd, UpperDirs, UpperDirsFd, TmpfsSize}
use layer_cake.Mounts.Attributes.{into_mount_attr}
use layer_cake.Spawn.Wire.{syscall, other, host_sourced_file_mismatch}
use layer_cake.Spawn.Mounts.{
  or_close, Flags, fsopen_cloexec, fsmount_cloexec, o_path, o_cloexec, o_directory,
  resolve_no_magiclinks, resolve_beneath, resolve_no_xdev, MountKernel, Guest, sys, sys_retried,
  and_close, ResolvedMount, Slots, write_slot,
}
use layer_cake.Spawn.Mounts.Tmpfs.{apply_tmpfs_size}
use layer_cake.Spawn.Mounts.Capture.{OverlayMount}
use layer_cake.Spawn.Mounts.Bind.{same_file_identity, upper_attributes}

-- `Mode::RWXU`
abbrev pub rwxu : ℕ
rwxu = 0o700

abbrev pub directory_flags : Flags
directory_flags = o_path ∷ o_cloexec ∷ o_directory ∷ []

module _ (format : ℕ → Bytes) (kernel : MountKernel) (fuel : ℕ) where
  open kernel use {
    State, fsopen, fsconfig_set_flag, fsconfig_set_fd, fsconfig_cmd_create_excl, fsmount, mkdirat,
    openat2,
  }

  -- `get_unchecked(mount_i)`
  abbrev pub get_unchecked : List OwnedFd → ℕ → Guest kernel OwnedFd
  get_unchecked fds i s = elim (get_elem? fds i) [
    | some mount ↦ (done mount, s)
    | none ↦ (stuck, s)
  ]

  -- `for _ in 0..n`, from index `i` on; the index behind the last
  unfoldable pub add_layers : ℕ → Bytes → List OwnedFd → ℕ → ℕ → Guest kernel ℕ
  add_layers fs key fds i zero = pure i
  add_layers fs key fds i (suc n) = do
    mount ← get_unchecked fds i
    sys kernel (fsconfig_set_fd fs key mount)
    add_layers fs key fds (i + 1) n

  -- A directory of the host, opened again.
  abbrev pub open_beneath : OwnedFd → Bytes → Guest kernel OwnedFd
  open_beneath parent name = sys_retried kernel fuel (
      openat2 parent name directory_flags
        (resolve_no_magiclinks ∷ resolve_beneath ∷ resolve_no_xdev ∷ []))

  unfoldable pub check_identity : OwnedFd → OwnedFd → Guest kernel (Unit {0})
  unfolding same_file_identity
  check_identity dir expected = do
    same ← same_file_identity kernel syscall dir expected
    if same then pure tt else fail (other host_sourced_file_mismatch)

  unfoldable pub set_host_upper : ℕ → UpperDirsFd → OwnedFd → Guest kernel (Unit {0})
  unfolding check_identity
  set_host_upper fs u mount = do
    workdir ← open_beneath mount u.workdir
    or_close kernel workdir (check_identity workdir u.workdir_fd)
    upperdir ← or_close kernel workdir (open_beneath mount u.upperdir)
    or_close kernel workdir (or_close kernel upperdir (check_identity upperdir u.upperdir_fd))
    or_close kernel upperdir
        (and_close kernel workdir (sys kernel (fsconfig_set_fd fs (codes "workdir") workdir)))
    and_close kernel upperdir (sys kernel (fsconfig_set_fd fs (codes "upperdir") upperdir))

  -- The mount of a new tmpfs.
  unfoldable pub mount_tmpfs : TmpfsSize → Option ℕ → Guest kernel OwnedFd
  unfolding apply_tmpfs_size into_mount_attr
  mount_tmpfs size max_inodes = do
    fs ← sys kernel (fsopen (codes "tmpfs") (fsopen_cloexec ∷ []))
    and_close kernel fs (do
      apply_tmpfs_size format kernel fs size max_inodes
      sys kernel (fsconfig_cmd_create_excl fs)
      sys kernel (fsmount fs (fsmount_cloexec ∷ []) (into_mount_attr upper_attributes)))

  abbrev open_new : OwnedFd → Bytes → Guest kernel OwnedFd
  open_new tmpfs name = sys kernel (
      openat2 tmpfs name (o_path ∷ o_directory ∷ o_cloexec ∷ [])
        (resolve_beneath ∷ resolve_no_magiclinks ∷ []))

  unfoldable pub set_tmpfs_upper : ℕ → OwnedFd → Guest kernel (Unit {0})
  set_tmpfs_upper fs tmpfs = do
    sys kernel (mkdirat tmpfs (codes "upperdir") rwxu)
    sys kernel (mkdirat tmpfs (codes "workdir") rwxu)
    upperdir ← open_new tmpfs (codes "upperdir")
    workdir ← or_close kernel upperdir (open_new tmpfs (codes "workdir"))
    or_close kernel workdir
        (and_close kernel upperdir (sys kernel (fsconfig_set_fd fs (codes "upperdir") upperdir)))
    and_close kernel workdir (sys kernel (fsconfig_set_fd fs (codes "workdir") workdir))

  -- The `if let` on the upper directories: the next index, and the `_tmpfs_guard`.
  unfoldable pub finish_upper :
      ℕ → List OwnedFd → Option UpperDirs → ℕ → Guest kernel (ℕ × Option OwnedFd)
  unfolding set_host_upper mount_tmpfs set_tmpfs_upper
  finish_upper fs fds none i = pure (i, none)
  finish_upper fs fds (some (UpperDirs.fds u)) i = do
    mount ← get_unchecked fds i
    set_host_upper fs u mount
    pure (i + 1, none)
  finish_upper fs fds (some (UpperDirs.tmpfs size max_inodes)) i = do
    tmpfs ← mount_tmpfs size max_inodes
    or_close kernel tmpfs (set_tmpfs_upper fs tmpfs)
    pure (i, some tmpfs)

  abbrev pub or_close_guard : {A : Type 0} → Option OwnedFd → Guest kernel A → Guest kernel A
  or_close_guard none m s = m s
  or_close_guard (some tmpfs) m s = or_close kernel tmpfs m s

  abbrev pub and_close_guard : {A : Type 0} → Option OwnedFd → Guest kernel A → Guest kernel A
  and_close_guard none m s = m s
  and_close_guard (some tmpfs) m s = and_close kernel tmpfs m s

  -- What follows the upper directories.
  unfoldable pub create_overlay : ℕ → Option OwnedFd → OverlayMount → Slots → Guest kernel Slots
  unfolding into_mount_attr write_slot
  create_overlay fs guard m slots = do
    or_close kernel fs (
        or_close_guard guard (do
          sys kernel (fsconfig_set_flag fs (codes "userxattr"))
          sys kernel (fsconfig_cmd_create_excl fs)))
    and_close_guard guard (do
      mount ←
          and_close kernel fs
            (sys kernel (fsmount fs (fsmount_cloexec ∷ []) (into_mount_attr m.overlay.attributes)))
      write_slot m.index (ResolvedMount.fd mount m.destination true) slots)

  -- The body of the loop.
  unfoldable pub finish_overlay : OverlayMount → List OwnedFd → ℕ → Slots → Guest kernel (ℕ × Slots)
  unfolding add_layers finish_upper create_overlay
  finish_overlay m fds i slots = do
    fs ← sys kernel (fsopen (codes "overlay") (fsopen_cloexec ∷ []))
    r ← or_close kernel fs (do
      j ← add_layers fs (codes "lowerdir+") fds i (length m.overlay.lowerdirs)
      k ← add_layers fs (codes "datadir+") fds j (length m.overlay.datadirs)
      finish_upper fs fds m.overlay.upperdirs k)
    slots' ← create_overlay fs r.1 m slots
    pure (r.0, slots')

  unfoldable pub finish_loop : List OverlayMount → List OwnedFd → ℕ → Slots → Guest kernel Slots
  unfolding finish_overlay
  finish_loop [] fds i slots = pure slots
  finish_loop (m ∷ rest) fds i slots = do
    w ← finish_overlay m fds i slots
    finish_loop rest fds w.0 w.1

  -- `finish_overlay_mount_resolution`: the number of slots that it wrote, and the slots.
  unfoldable pub finish_overlay_mount_resolution :
      Slots → List OwnedFd → List OverlayMount → Guest kernel (ℕ × Slots)
  unfolding finish_loop
  finish_overlay_mount_resolution slots fds overlay_mounts = do
    slots' ← finish_loop overlay_mounts fds 0 slots
    pure (length overlay_mounts, slots')
