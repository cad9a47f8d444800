-- ===== src/Spawn/Attach/Attached.antt =====
-- What the loop of `guest_post_clone` in crates/bubblebox/src/platform/linux/spawn/mod.rs attaches
-- to the new root of a guest.
use layer_cake.Prelude.{
  Bool, ℕ, ◌+◌, ◌≤◌, ◌<◌, ◌≡◌, true, false, Bytes, List, [], ◌∷◌, ◌++◌, length, take, All, Result,
  ok, err, if◌then◌else◌,
}
use layer_cake.Prelude.Text.{codes}
use layer_cake.Meowix.Errors.{SyscallError}
use layer_cake.Meowix.Act.{Act, is_intr}
use layer_cake.Meowix.Io.{write_all}
use layer_cake.Meowix.Gives.{Gives}
use layer_cake.Paths.Guest.{GuestInner, joined}
use layer_cake.Mounts.{OwnedFd, Mode}
use layer_cake.Spawn.Mounts.{
  o_wronly, Flags, o_path, o_cloexec, o_directory, o_creat, o_rdwr, resolve_in_root,
  resolve_no_magiclinks, resolve_no_symlinks, resolve_beneath, at_symlink_nofollow, statx_type,
  move_mount_f_empty_path, at, ResolvedMount,
}
use layer_cake.Meowix.Answers.{Answered}
use layer_cake.Spawn.Attach.Root.{IsRoot, IsEntered, IsLeft}
use layer_cake.Spawn.Attach.Answers.{FitsPoint, IsAbsent}
use layer_cake.Spawn.Attach.{AttachKernel, s_ifdir, s_ifreg}

module _ (kernel : AttachKernel) where
  open kernel use {
    mounts, statx_mode, openat2_mode, write, move_mount, symlinkat, mount_setattr, fchdir, chroot,
    umount2,
  }
  open mounts use {
    State, openat2, mkdirat, fsopen, fsconfig_set_string, fsconfig_cmd_create_excl, fsmount, chdir,
  }

  -- The parent of a path, opened below the root.
  abbrev Parent : OwnedFd → GuestInner → ℕ → Type 0
  Parent root path = Answered (
      openat2 root path.parent_dir (o_path ∷ o_cloexec ∷ o_directory ∷ [])
        (resolve_in_root ∷ resolve_no_magiclinks ∷ resolve_no_symlinks ∷ []))

  -- What statx has told of a name.
  abbrev Told : OwnedFd → Bytes → Flags → (Result ℕ SyscallError → Type 0) → Type 0
  Told parent name mask P =
      (s : State) × (r : Result ℕ SyscallError) × ((statx_mode parent name
          (at_symlink_nofollow ∷ []) mask s).0
        ≡ r)
      × P r

  module _ (fuel : ℕ) (taken : ℕ → State → Bytes) where
    -- What a mount point is made of where nothing is: a directory, or an empty regular file.
    abbrev MadePoint : Bool → OwnedFd → Bytes → Type 0
    MadePoint true parent name = Answered (mkdirat parent name 0o755) tt
    MadePoint false parent name =
        (file : ℕ) × Answered
          (openat2_mode parent name (o_creat ∷ o_wronly ∷ []) 0o644 (resolve_beneath ∷ [])) file

    -- A write of all the contents has ended, and the file has taken them behind what it had.
    abbrev Filled : OwnedFd → Bytes → Type 0
    Filled file contents =
        (s : State) × (taken file (write_all (write file) fuel contents s).1
          ≡ taken file s ++ contents)

    -- That a resolved mount has been attached: its parent was opened below the root; a mount was
    -- moved onto a name that was of its type, or that did not exist and was made; all else was made
    -- with a name that did not exist, a file with all its contents, a symbolic link with its whole
    -- target.
    abbrev pub Attached : OwnedFd → ResolvedMount → Type 0
    Attached root (ResolvedMount.fd mount path is_directory) =
        (parent : ℕ) × Parent root path parent
        × Told parent path.file_name (statx_type ∷ []) (
            FitsPoint (if is_directory then s_ifdir else s_ifreg)
              (MadePoint is_directory parent path.file_name))
        × Answered
            (move_mount mount (codes "") (at parent) path.file_name (move_mount_f_empty_path ∷ []))
            tt
    Attached root (ResolvedMount.file f path) =
        (parent : ℕ) × Parent root path parent
        × Told parent path.file_name [] IsAbsent
        × ((file : ℕ) × Answered
              (openat2_mode parent path.file_name (o_creat ∷ o_rdwr ∷ []) f.permissions
                (resolve_beneath ∷ []))
              file
            × Filled file f.contents)
    Attached root (ResolvedMount.symlink source path) =
        (parent : ℕ) × Parent root path parent
        × Told parent path.file_name [] IsAbsent
        × Answered (symlinkat (joined source) parent path.file_name) tt
    Attached root (ResolvedMount.directory owner permissions path) =
        (parent : ℕ) × Parent root path parent
        × Told parent path.file_name [] IsAbsent
        × Answered (mkdirat parent path.file_name permissions) tt

    module _ (pending : State → ℕ)
        (openat2_falls : (dir : ℕ) (name : Bytes) (flags resolve : Flags) (s : State)
          → is_intr (openat2 dir name flags resolve s).0 ≡ true
          → pending (openat2 dir name flags resolve s).1 < pending s)
        (openat2_mode_falls : (dir : ℕ) (name : Bytes) (flags : Flags) (mode : Mode)
            (resolve : Flags) (s : State)
          → is_intr (openat2_mode dir name flags mode resolve s).0 ≡ true
          → pending (openat2_mode dir name flags mode resolve s).1 < pending s)
        (write_takes : (file : ℕ) (value : Bytes) (s : State) (n : ℕ)
          → (write file value s).0 ≡ ok n
          → (n ≤ length value) × (taken file (write file value s).1 ≡ taken file s ++ take n value))
        (write_fails : (file : ℕ) (value : Bytes) (s : State) (e : SyscallError)
          → (write file value s).0 ≡ err e
          → taken file (write file value s).1 ≡ taken file s)
        (write_steady : (file : ℕ) (value : Bytes) (s : State)
          → pending (write file value s).1 ≤ pending s)
        (write_falls : (file : ℕ) (value : Bytes) (s : State)
          → is_intr (write file value s).0 ≡ true
          → pending (write file value s).1 < pending s)
        (longest : ℕ) (enough : (s : State) → pending s + longest < fuel) where
      -- The contents of a file are no longer than the bound.
      abbrev pub Fits : ResolvedMount → Type 0
      Fits (ResolvedMount.file f path) = length f.contents ≤ longest
      Fits _ = Unit

      -- What the setup of the root has done.
      abbrev pub IsSetUp : List ResolvedMount → Type 0
      IsSetUp resolved =
          ((root : OwnedFd) × IsRoot kernel root
            × All (Attached root) resolved
            × IsEntered kernel root)
          × IsLeft kernel
