-- ===== src/Spawn/Mounts.antt =====
-- The mounts of a guest, resolved before they are attached:
-- crates/bubblebox/src/platform/linux/spawn/mounts.rs. A set of flags is the list of those that
-- are set, an index of a vector that is not checked makes the code stuck out of range.
pub mod Tmpfs
pub mod Nonbind
pub mod Capture
pub mod Bind
pub mod Overlays
pub mod Steps
pub mod Made
pub mod Sound
pub mod Nonbinds
pub mod Captured
pub mod Placed
pub mod Opened
pub mod Detached
pub mod Upper
pub mod Layers
pub mod Resolved
pub mod TmpfsLaws
use layer_cake.Prelude.{
  ◌++◌, length, ℕ, ◌≡◌, Bool, Bytes, List, [], ◌∷◌, Option, none, some, ltb, ◌==◌, if◌then◌else◌,
}
pub use layer_cake.Meowix.Flags.{
  Flag, Flags, fsopen_cloexec, fsmount_cloexec, open_tree_namespace, open_tree_cloexec,
  open_tree_clone, at_empty_path, at_recursive, at_symlink_nofollow, clone_newns, ms_private,
  o_path, o_cloexec, o_directory, resolve_no_magiclinks, resolve_beneath, resolve_no_xdev,
  resolve_in_root, resolve_no_symlinks, o_creat, o_wronly, o_rdwr, statx_type, clone_newcgroup,
  clone_newtime, clone_newnet, clone_newuser, clone_newuts, clone_newipc, clone_newpid, clone_pidfd,
  clone_autoreap, clone_nnp, clone_pidfd_autokill, clone_clear_sighand, clone_into_cgroup, ms_rec,
  move_mount_f_empty_path, move_mount_beneath, mnt_detach,
}
use layer_cake.Meowix.Errors.{SyscallError}
use layer_cake.Meowix.Act.{
  done, failed, Outcome, failed, stuck, Act, Call, wrap_error, once, retry_on_interrupt,
}
use layer_cake.Meowix.Gives.{call, retried}
use layer_cake.Paths.Guest.{GuestInner}
use layer_cake.Mounts.{OwnedFd, Mode, Owner, File}
use layer_cake.Spawn.Wire.{PostSpawnGuest, syscall}

-- `AtFd`
pub data AtFd : Type 0 where
  cwd : AtFd
  at : ℕ → AtFd

-- `mount_attr`, whose `attr_clr` and `userns_fd` are always 0
pub record MountAttr : Type 0 where
  pub attr_set : ℕ
  pub propagation : Flags

-- What `statx(2)` answers about the identity of a file.
pub record Statx : Type 0 where
  pub has_ino : Bool
  pub dev_major : ℕ
  pub dev_minor : ℕ
  pub ino : ℕ

-- The calls, by the names of crates/meowix/src/syscalls.rs.
pub record MountKernel : Type 1 where
  pub State : Type 0
  pub fsopen : Bytes → Flags → Call State ℕ
  pub fsconfig_set_flag : ℕ → Bytes → Call State (Unit {0})
  pub fsconfig_set_string : ℕ → Bytes → Bytes → Call State (Unit {0})
  pub fsconfig_set_fd : ℕ → Bytes → ℕ → Call State (Unit {0})
  pub fsconfig_cmd_create : ℕ → Call State (Unit {0})
  pub fsconfig_cmd_create_excl : ℕ → Call State (Unit {0})
  pub fsmount : ℕ → Flags → ℕ → Call State ℕ
  pub open_tree : AtFd → Bytes → Flags → Call State ℕ
  pub open_tree_attr : AtFd → Bytes → Flags → MountAttr → Call State ℕ
  pub unshare : Flags → Call State (Unit {0})
  pub setns : ℕ → Flags → Call State (Unit {0})
  pub chdir : Bytes → Call State (Unit {0})
  pub mkdirat : ℕ → Bytes → Mode → Call State (Unit {0})
  -- `openat2` on a directory, with the flags and the `resolve` of `open_how`
  pub openat2 : ℕ → Bytes → Flags → Flags → Call State ℕ
  -- `statx` of the file itself
  pub statx : ℕ → Call State Statx
  -- the drop of an `OwnedFd`
  pub close : ℕ → State → State

-- `ResolvedMount`
pub data ResolvedMount : Type 0 where
  fd : OwnedFd → GuestInner → Bool → ResolvedMount
  file : File → GuestInner → ResolvedMount
  symlink : GuestInner → GuestInner → ResolvedMount
  directory : Owner → Mode → GuestInner → ResolvedMount

module _ (kernel : MountKernel) where
  open kernel use {State, close}

  abbrev pub Guest : Type 0 → Type 0
  Guest A = Act State PostSpawnGuest A

  -- A call and `?`.
  abbrev pub sys : {A : Type 0} → Call State A → Guest A
  sys c = call syscall c

  -- `retry_on_interrupt!` and `?`.
  abbrev pub sys_retried : {A : Type 0} → ℕ → Call State A → Guest A
  sys_retried fuel c = retried syscall fuel c

  -- A file descriptor that is dropped on every path.
  unfoldable pub and_close : {A : Type 0} → ℕ → Guest A → Guest A
  and_close owned m s = let r = m s in (r.0, close owned r.1)

  abbrev close_failed : {A : Type 0} → ℕ → Outcome A PostSpawnGuest → State → State
  close_failed owned (done a) s = s
  close_failed owned (failed e) s = close owned s
  close_failed owned stuck s = s

  -- A file descriptor that is dropped where the code fails.
  unfoldable pub or_close : {A : Type 0} → ℕ → Guest A → Guest A
  or_close owned m s = let r = m s in (r.0, close_failed owned r.0 r.1)

-- The spare capacity of a `Vec`: what is written at each index.
pub record Slots : Type 0 where
  pub capacity : ℕ
  pub written : ℕ → Option ResolvedMount

abbrev pub put : ℕ → ResolvedMount → Slots → Slots
put i r slots = record slots { written = λ j. if j == i then some r else slots.written j }

-- `get_unchecked_mut(i).write(r)`
unfoldable pub write_slot : {S E : Type 0} → ℕ → ResolvedMount → Slots → Act S E Slots
write_slot i r slots s = if ltb i slots.capacity then (done (put i r slots), s) else (stuck, s)

-- A vector with its capacity, and `push_within_capacity(x).unwrap_unchecked()`.
pub record Bounded (A : Type 0) : Type 0 where
  pub capacity : ℕ
  pub elements : List A

unfoldable pub push : {S E A : Type 0} → A → Bounded A → Act S E (Bounded A)
push x v s =
    if ltb (length v.elements) v.capacity
    then (done (record v { elements = v.elements ++ x ∷ [] }), s)
    else (stuck, s)
