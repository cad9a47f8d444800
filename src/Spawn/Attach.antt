-- ===== src/Spawn/Attach.antt =====
-- How a guest attaches its resolved mounts below a new root: `guest_post_clone` of
-- crates/bubblebox/src/platform/linux/spawn/mod.rs, and `open_parent_in_root` of spawn/mounts.rs
-- beside it.
pub mod Answers
pub mod Root
pub mod Attached
use layer_cake.Prelude.{
  ℕ, ◌/◌, ◌%◌, Bool, true, false, Bytes, List, [], ◌∷◌, Option, none, some, Result, ok, err, ◌==◌,
  if◌then◌else◌,
}
use layer_cake.Prelude.Text.{codes}
use layer_cake.Meowix.Errors.{Errno, errno, SyscallError}
use layer_cake.Meowix.Act.{Act, Call, done, wrap_error}
use layer_cake.Meowix.Io.{PartialTransfer, write_all}
use layer_cake.Meowix.Gives.{attempt, ◌>>=◌, ◌>>◌, pure, fail, lift}
use layer_cake.Paths.Guest.{GuestInner, path_max, guest_with_c_str}
use layer_cake.Mounts.{OwnedFd, Mode, File}
use layer_cake.Spawn.Wire.{
  PostSpawnGuest, PostSpawnGuestOther, syscall, other, incomplete_write,
  invalid_directory_mount_point, invalid_regular_file_mount_point, destination_exists,
}
use layer_cake.Spawn.Fmt.{convert}
use layer_cake.Spawn.Mounts.{
  Flags, fsopen_cloexec, fsmount_cloexec, o_path, o_cloexec, o_directory, o_creat, o_wronly, o_rdwr,
  resolve_in_root, resolve_no_magiclinks, resolve_no_symlinks, resolve_beneath, at_empty_path,
  at_symlink_nofollow, statx_type, move_mount_f_empty_path, move_mount_beneath, mnt_detach, AtFd,
  cwd, at, MountAttr, MountKernel, ResolvedMount, Guest, sys, sys_retried, and_close,
}

-- The calls beside those of `MountKernel`.
pub record AttachKernel : Type 1 where
  pub mounts : MountKernel
  -- `statx` of a name in a directory, with its flags and its mask: the mode
  pub statx_mode : ℕ → Bytes → Flags → Flags → Call (MountKernel.State mounts) ℕ
  -- `openat2` with the mode of a new file
  pub openat2_mode : ℕ → Bytes → Flags → Mode → Flags → Call (MountKernel.State mounts) ℕ
  pub write : ℕ → Bytes → Call (MountKernel.State mounts) ℕ
  pub move_mount :
      OwnedFd → Bytes → AtFd → Bytes → Flags → Call (MountKernel.State mounts) (Unit {0})
  pub symlinkat : Bytes → ℕ → Bytes → Call (MountKernel.State mounts) (Unit {0})
  pub mount_setattr :
      OwnedFd → Bytes → Flags → MountAttr → Call (MountKernel.State mounts) (Unit {0})
  pub fchdir : OwnedFd → Call (MountKernel.State mounts) (Unit {0})
  pub chroot : Bytes → Call (MountKernel.State mounts) (Unit {0})
  pub umount2 : Bytes → Flags → Call (MountKernel.State mounts) (Unit {0})

-- `Errno::NOENT`
abbrev pub noent : Errno
noent = errno 2

abbrev pub is_noent : SyscallError → Bool
is_noent e = e.error.encoded == noent.encoded

-- `mode & S_IFMT`, of which the types are `S_IFDIR` and `S_IFREG`
abbrev pub file_type : ℕ → ℕ
file_type mode = mode / 0o10000 % 0o20

abbrev pub s_ifdir : ℕ
s_ifdir = 0o04

abbrev pub s_ifreg : ℕ
s_ifreg = 0o10

-- The closure behind `write_all`.
abbrev pub write_error : PartialTransfer → PostSpawnGuest
write_error p = elim p.error [ some e ↦ syscall e | none ↦ incomplete_write ]

module _ {S : Type 0} where
  -- The `match` on a mount point, which is created where it does not exist.
  unfoldable pub ensure_point :
      ℕ
      → PostSpawnGuestOther
      → Act S PostSpawnGuest (Unit {0})
      → Result ℕ SyscallError
      → Act S PostSpawnGuest (Unit {0})
  ensure_point type wrong create (ok mode) =
      if file_type mode == type then pure tt else fail (other wrong)
  ensure_point type wrong create (err e) = if is_noent e then create else fail (syscall e)

  -- The `match` where nothing may be.
  unfoldable pub ensure_absent : Result ℕ SyscallError → Act S PostSpawnGuest (Unit {0})
  ensure_absent (ok mode) = fail (other destination_exists)
  ensure_absent (err e) = if is_noent e then pure tt else fail (syscall e)

module _ (kernel : AttachKernel) (fuel : ℕ) where
  open kernel use {
    mounts, statx_mode, openat2_mode, write, move_mount, symlinkat, mount_setattr, fchdir, chroot,
    umount2,
  }
  open mounts use {
    State, openat2, mkdirat, fsopen, fsconfig_set_string, fsconfig_cmd_create_excl, fsmount, chdir,
  }

  -- `open_parent_in_root` and what is done with the file descriptor, which is dropped behind it.
  abbrev pub in_parent :
      {A : Type 0} → OwnedFd → GuestInner → (OwnedFd → Bytes → Guest mounts A) → Guest mounts A
  in_parent root path body = do
    parent ← sys_retried mounts fuel (
        openat2 root path.parent_dir (o_path ∷ o_cloexec ∷ o_directory ∷ [])
          (resolve_in_root ∷ resolve_no_magiclinks ∷ resolve_no_symlinks ∷ []))
    and_close mounts parent (body parent path.file_name)

  abbrev pub create_file : OwnedFd → Bytes → Flags → Mode → Guest mounts OwnedFd
  create_file parent name flags mode =
      sys_retried mounts fuel (openat2_mode parent name flags mode (resolve_beneath ∷ []))

  -- The regular file that a mount point is made of.
  abbrev pub create_mount_point : OwnedFd → Bytes → Guest mounts (Unit {0})
  create_mount_point parent name = do
    file ← create_file parent name (o_creat ∷ o_wronly ∷ []) 0o644
    and_close mounts file (pure tt)

  abbrev pub stat_type : OwnedFd → Bytes → Guest mounts (Result ℕ SyscallError)
  stat_type parent name =
      attempt (statx_mode parent name (at_symlink_nofollow ∷ []) (statx_type ∷ []))

  abbrev pub stat_any : OwnedFd → Bytes → Guest mounts (Result ℕ SyscallError)
  stat_any parent name = attempt (statx_mode parent name (at_symlink_nofollow ∷ []) [])

  abbrev pub attach_mount : OwnedFd → OwnedFd → Bytes → Guest mounts (Unit {0})
  attach_mount mount parent name =
      sys mounts (move_mount mount (codes "") (at parent) name (move_mount_f_empty_path ∷ []))

  -- A detached mount, moved onto its mount point.
  abbrev pub attach_at :
      ℕ
      → PostSpawnGuestOther
      → (OwnedFd → Bytes → Guest mounts (Unit {0}))
      → OwnedFd
      → OwnedFd
      → Bytes
      → Guest mounts (Unit {0})
  attach_at type wrong create mount parent name = do
    found ← stat_type parent name
    ensure_point type wrong (create parent name) found
    attach_mount mount parent name

  -- What is made where nothing is.
  abbrev pub make_at :
      (OwnedFd → Bytes → Guest mounts (Unit {0})) → OwnedFd → Bytes → Guest mounts (Unit {0})
  make_at create parent name = do
    found ← stat_any parent name
    ensure_absent found
    create parent name

  abbrev pub create_directory : Mode → OwnedFd → Bytes → Guest mounts (Unit {0})
  create_directory mode parent name = sys mounts (mkdirat parent name mode)

  abbrev pub make_file : File → OwnedFd → Bytes → Guest mounts (Unit {0})
  make_file f parent name = do
    file ← create_file parent name (o_creat ∷ o_rdwr ∷ []) f.permissions
    and_close mounts file (wrap_error write_error (write_all (write file) fuel f.contents))

  abbrev pub make_symlink : GuestInner → OwnedFd → Bytes → Guest mounts (Unit {0})
  make_symlink source parent name = do
    target ← lift (convert (guest_with_c_str path_max source ok))
    sys mounts (symlinkat target parent name)

  -- The `match` on a resolved mount.
  unfoldable pub attach : OwnedFd → ResolvedMount → Guest mounts (Unit {0})
  unfolding ensure_point ensure_absent attempt write_all guest_with_c_str
  attach root (ResolvedMount.fd mount destination true) =
      in_parent root destination
        (attach_at s_ifdir invalid_directory_mount_point (create_directory 0o755) mount)
  attach root (ResolvedMount.fd mount destination false) =
      in_parent root destination
        (attach_at s_ifreg invalid_regular_file_mount_point create_mount_point mount)
  attach root (ResolvedMount.file f destination) =
      in_parent root destination (make_at (make_file f))
  attach root (ResolvedMount.symlink source destination) =
      in_parent root destination (make_at (make_symlink source))
  attach root (ResolvedMount.directory owner permissions destination) =
      in_parent root destination (make_at (create_directory permissions))

  -- The `for`.
  unfoldable pub attach_all : OwnedFd → List ResolvedMount → Guest mounts (Unit {0})
  unfolding attach
  attach_all root [] = pure tt
  attach_all root (r ∷ rest) = attach root r >> attach_all root rest

  -- The tmpfs of the root.
  unfoldable pub mount_root : Guest mounts OwnedFd
  mount_root = do
    fs ← sys mounts (fsopen (codes "tmpfs") (fsopen_cloexec ∷ []))
    and_close mounts fs (do
      sys mounts (fsconfig_set_string fs (codes "mode") (codes "755"))
      sys mounts (fsconfig_cmd_create_excl fs)
      sys mounts (fsmount fs (fsmount_cloexec ∷ []) 0x6))

  -- What follows the loop: the root gets read-only, and takes the place of the old one.
  unfoldable pub enter_root : OwnedFd → Guest mounts (Unit {0})
  enter_root root = do
    sys mounts (
        mount_setattr root (codes "") (at_empty_path ∷ [])
          (record { attr_set = 0xf; propagation = [] }))
    sys mounts (fchdir root)
    sys mounts (
        move_mount root (codes "") cwd (codes "/")
          (move_mount_f_empty_path ∷ move_mount_beneath ∷ []))

  unfoldable pub set_up_root : List ResolvedMount → Guest mounts (Unit {0})
  unfolding mount_root attach_all enter_root
  set_up_root resolved = do
    root ← mount_root
    and_close mounts root (attach_all root resolved >> enter_root root)
    sys mounts (chroot (codes "."))
    sys mounts (umount2 (codes ".") (mnt_detach ∷ []))
    sys mounts (chdir (codes "/"))
