-- ===== src/Spawn/Mounts/Made.antt =====
-- What the calls of the kernel have answered for a mount that is resolved by
-- crates/bubblebox/src/platform/linux/spawn/mounts.rs.
use layer_cake.Prelude.{
  ℕ, ◌+◌, ◌<◌, ◌≡◌, Bool, false, Bytes, List, [], ◌∷◌, length, get_elem?, Option, none, some, All,
  ok,
}
use layer_cake.Paths.Guest.{GuestInner}
use layer_cake.Prelude.Text.{codes}
use layer_cake.Meowix.Act.{Call}
use layer_cake.Meowix.Answers.{Answered}
use layer_cake.Mounts.{
  OwnedFd, MountAttributes, BindMount, directory, UpperDirs, Overlay, Tmpfs, Procfs, ProcSubset,
  full, pid, ProcPidNamespace, guest,
}
use layer_cake.Mounts.Attributes.{into_mount_attr}
use layer_cake.Spawn.Mounts.{
  MountKernel, Statx, Flags, fsopen_cloexec, fsmount_cloexec, o_path, o_cloexec, o_directory,
  resolve_no_magiclinks, resolve_beneath, resolve_no_xdev, at_symlink_nofollow, cwd, at,
  at_recursive, clone_newns,
}
use layer_cake.Spawn.Mounts.Capture.{FileInfo, NamespaceFd, is_none, namespace_flags, with_flag_if}
use layer_cake.Spawn.Mounts.Bind.{bind_attr, clone_flags, overlay_flags, upper_attributes}
use layer_cake.Spawn.Mounts.Nonbind.{hidepid_name, mode_text}
use layer_cake.Spawn.Mounts.Overlays.{directory_flags, rwxu}

abbrev pub file_info_of : BindMount → Option FileInfo
file_info_of (BindMount.file f) =
    some (record { name = f.name; original_fd = f.fd; is_symlink = f.is_symlink })
file_info_of (directory n a r) = none

abbrev pub attributes_of : BindMount → MountAttributes
attributes_of (BindMount.file f) = f.attributes
attributes_of (directory n a r) = a

abbrev pub is_recursive_of : BindMount → Bool
is_recursive_of (BindMount.file f) = false
is_recursive_of (directory n a r) = r

abbrev pub is_directory : BindMount → Bool
is_directory b = is_none (file_info_of b)

abbrev dirfd_of : BindMount → OwnedFd
dirfd_of (BindMount.file f) = f.dirfd
dirfd_of (directory n a r) = n

-- What the first loop of `resolve_bind_mappings` pushes for a mount that is bound.
abbrev pub entry_of : ℕ → GuestInner → BindMount → OwnedFd → NamespaceFd
entry_of i d b namespace_fd = record {
  index = i;
  namespace_fd = namespace_fd;
  destination = d;
  file_info = file_info_of b;
  attributes = attributes_of b;
  is_recursive = is_recursive_of b;
}

module _ (kernel : MountKernel) where
  open kernel use {
    State, fsopen, fsconfig_set_flag, fsconfig_set_string, fsconfig_set_fd, fsconfig_cmd_create,
    fsconfig_cmd_create_excl, fsmount, open_tree, open_tree_attr, setns, chdir, mkdirat, openat2,
    statx,
  }

  -- statx has told of both, and they are the same file.
  abbrev pub SameFile : ℕ → ℕ → Type 0
  SameFile a b =
      (l : Statx) × (r : Statx) × Answered (statx a) l
      × Answered (statx b) r
      × (l.dev_major ≡ r.dev_major)
      × (l.dev_minor ≡ r.dev_minor)
      × (l.ino ≡ r.ino)

  -- A namespace of the directory of a mount that is bound has been opened.
  abbrev pub IsNamespace : BindMount → OwnedFd → Type 0
  IsNamespace b = Answered (
      open_tree (at (dirfd_of b)) (codes "")
        (with_flag_if (is_recursive_of b) (at_recursive ∷ []) namespace_flags))

  -- A namespace has been entered, and its root.
  abbrev pub Entered : OwnedFd → State → Type 0
  Entered namespace_fd u =
      (s t : State) × (setns namespace_fd (clone_newns ∷ []) s ≡ (ok tt, t))
      × (chdir (codes "/") t ≡ (ok tt, u))

  -- Behind the entry of a namespace, a call has answered with a descriptor.
  abbrev pub InNamespace : OwnedFd → Call State ℕ → OwnedFd → Type 0
  InNamespace namespace_fd c n =
      (u : State) × (v : State) × Entered namespace_fd u × (c u ≡ (ok n, v))

  -- The call that detaches a mount.
  abbrev pub detaching : Option FileInfo → MountAttributes → Bool → Call State ℕ
  detaching none attributes is_recursive =
      open_tree_attr cwd (codes "/") (clone_flags kernel is_recursive) (bind_attr kernel attributes)
  detaching (some info) attributes is_recursive =
      open_tree_attr cwd info.name
        (with_flag_if info.is_symlink (at_symlink_nofollow ∷ []) (clone_flags kernel is_recursive))
        (bind_attr kernel attributes)

  -- A file is the one that is expected.
  abbrev IsExpected : Option FileInfo → OwnedFd → Type 0
  IsExpected none n = Unit
  IsExpected (some info) n = SameFile info.original_fd n

  -- The call that detaches a mount has answered with it, in a namespace.
  abbrev pub IsOpened : Option FileInfo → MountAttributes → Bool → OwnedFd → OwnedFd → Type 0
  IsOpened info attributes is_recursive namespace_fd n =
      InNamespace namespace_fd (detaching info attributes is_recursive) n × IsExpected info n

  -- A mount that is bound has been detached in a namespace of its directory.
  abbrev pub IsDetached : BindMount → OwnedFd → Type 0
  IsDetached b n =
      (namespace_fd : OwnedFd) × IsNamespace b namespace_fd
      × IsOpened (file_info_of b) (attributes_of b) (is_recursive_of b) namespace_fd n

  -- A namespace of a directory that an overlay is made of has been opened.
  abbrev pub IsCaptured : OwnedFd → Type 0
  IsCaptured namespace_fd =
      (dir : OwnedFd) × Answered (open_tree (at dir) (codes "") namespace_flags) namespace_fd

  -- The call that detaches such a directory.
  abbrev pub detaching_layer : Call State ℕ
  detaching_layer =
      open_tree_attr cwd (codes "/") (overlay_flags kernel) (bind_attr kernel upper_attributes)

  -- It has answered, in a namespace that has been opened so.
  abbrev pub IsConstituent : OwnedFd → Type 0
  IsConstituent n =
      (namespace_fd : OwnedFd) × IsCaptured namespace_fd
      × InNamespace namespace_fd detaching_layer n

  -- What is set of a proc file system, its group aside.
  abbrev pub HasSubset : ℕ → ProcSubset → Type 0
  HasSubset fs full = Unit
  HasSubset fs pid = Answered (fsconfig_set_string fs (codes "subset") (codes "pid")) tt

  abbrev pub HasNamespace : ℕ → ProcPidNamespace → Type 0
  HasNamespace fs guest = Unit
  HasNamespace fs (ProcPidNamespace.fd n) = Answered (fsconfig_set_fd fs (codes "pidns") n) tt

  abbrev pub IsProc : Procfs → ℕ → Type 0
  IsProc p fs =
      Answered (fsconfig_set_string fs (codes "hidepid") (hidepid_name p.hidepid)) tt
      × HasSubset fs p.subset
      × HasNamespace fs p.namespace

  -- What is set of a tmpfs, its size aside.
  abbrev pub IsTmpfs : Tmpfs → ℕ → Type 0
  IsTmpfs t fs = Answered (fsconfig_set_string fs (codes "mode") (mode_text t.permissions)) tt

  abbrev pub IsPlain : ℕ → Type 0
  IsPlain fs = Unit

  -- A file system of this name has been opened, configured and created, and fsmount has answered
  -- with its mount.
  abbrev pub IsMountOf : Bytes → (ℕ → Type 0) → (ℕ → Call State (Unit {0})) → ℕ → OwnedFd → Type 0
  IsMountOf name IsConfigured create attributes n =
      (fs : ℕ) × Answered (fsopen name (fsopen_cloexec ∷ [])) fs
      × IsConfigured fs
      × Answered (create fs) tt
      × Answered (fsmount fs (fsmount_cloexec ∷ []) attributes) n

  -- The descriptors from index `i` on have been set as the layers of a key.
  abbrev pub AreLayers : ℕ → Bytes → List OwnedFd → ℕ → ℕ → Type 0
  AreLayers fs key fds i n =
      (k : ℕ)
      → k < n
      → (m : OwnedFd) × (get_elem? fds (i + k) ≡ some m) × Answered (fsconfig_set_fd fs key m) tt

  -- Both directories have been opened in `dir` and set.
  abbrev pub AreUpper : ℕ → OwnedFd → Bytes → Bytes → Flags → Flags → Type 0
  AreUpper fs dir upper work flags resolve =
      (u : OwnedFd) × (w : OwnedFd) × Answered (openat2 dir upper flags resolve) u
      × Answered (openat2 dir work flags resolve) w
      × Answered (fsconfig_set_fd fs (codes "upperdir") u) tt
      × Answered (fsconfig_set_fd fs (codes "workdir") w) tt

  -- The upper directories have been set: those of the descriptor at index `i`, or new ones in a new
  -- tmpfs.
  abbrev pub HasUpper : ℕ → List OwnedFd → ℕ → Option UpperDirs → Type 0
  HasUpper fs fds i none = Unit
  HasUpper fs fds i (some (UpperDirs.fds u)) =
      (m : OwnedFd) × (get_elem? fds i ≡ some m)
      × AreUpper fs m u.upperdir u.workdir directory_flags
          (resolve_no_magiclinks ∷ resolve_beneath ∷ resolve_no_xdev ∷ [])
  HasUpper fs fds i (some (UpperDirs.tmpfs size max_inodes)) =
      (t : OwnedFd) × IsMountOf (codes "tmpfs") IsPlain fsconfig_cmd_create_excl
        (into_mount_attr upper_attributes) t
      × Answered (mkdirat t (codes "upperdir") rwxu) tt
      × Answered (mkdirat t (codes "workdir") rwxu) tt
      × AreUpper fs t (codes "upperdir") (codes "workdir") (o_path ∷ o_directory ∷ o_cloexec ∷ [])
          (resolve_beneath ∷ resolve_no_magiclinks ∷ [])

  -- All layers of an overlay have been set, from index `i` on.
  abbrev pub HasLayers : ℕ → List OwnedFd → ℕ → Overlay → Type 0
  HasLayers fs fds i o =
      let j = i + length o.lowerdirs in
      AreLayers fs (codes "lowerdir+") fds i (length o.lowerdirs)
      × AreLayers fs (codes "datadir+") fds j (length o.datadirs)
      × HasUpper fs fds (j + length o.datadirs) o.upperdirs

  -- An overlay has been opened, its layers have been set from detached mounts, it has been created,
  -- and fsmount has answered with its mount.
  abbrev pub IsOverlay : Overlay → OwnedFd → Type 0
  IsOverlay o n =
      (fs : ℕ) × (fds : List OwnedFd) × (i : ℕ) × All IsConstituent fds
      × Answered (fsopen (codes "overlay") (fsopen_cloexec ∷ [])) fs
      × HasLayers fs fds i o
      × Answered (fsconfig_set_flag fs (codes "userxattr")) tt
      × Answered (fsconfig_cmd_create_excl fs) tt
      × Answered (fsmount fs (fsmount_cloexec ∷ []) (into_mount_attr o.attributes)) n
