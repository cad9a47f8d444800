-- ===== src/Spawn/Mounts/Bind.antt =====
-- `resolve_bind_mappings` of crates/bubblebox/src/platform/linux/spawn/mounts.rs, with
-- `same_file_identity` of crates/bubblebox/src/platform/linux/paths.rs.
use layer_cake.Prelude.{
  ℕ, Bool, true, false, not, ◌&&◌, ◌||◌, List, [], ◌∷◌, length, Option, none, some, leb, ◌==◌,
  if◌then◌else◌,
}
use layer_cake.Prelude.Text.{codes}
use layer_cake.Meowix.Act.{Act}
use layer_cake.Meowix.Gives.{call, ◌>>=◌, ◌>>◌, pure, fail}
use layer_cake.Meowix.Errors.{SyscallError}
use layer_cake.Mounts.{OwnedFd, MountAttributes}
use layer_cake.Mounts.Attributes.{into_mount_attr}
use layer_cake.Mounts.Validate.{Entries}
use layer_cake.Spawn.Wire.{syscall, other, nonzero_resolved_len, host_sourced_file_mismatch}
use layer_cake.Spawn.Fmt.{too_small}
use layer_cake.Spawn.Mounts.{
  or_close, Flags, open_tree_namespace, open_tree_cloexec, open_tree_clone, at_empty_path,
  at_recursive, at_symlink_nofollow, clone_newns, ms_private, cwd, MountAttr, MountKernel, Guest,
  sys, and_close, ResolvedMount, Slots, write_slot,
}
use layer_cake.Spawn.Mounts.Capture.{
  is_none, with_flag_if, capture_loop, FileInfo, Scratch, NamespaceFd,
}

-- The attributes of what an overlay is made of.
abbrev pub upper_attributes : MountAttributes
upper_attributes = record {
  read_only = false;
  no_setuid = true;
  no_devices = true;
  no_execution = false;
  no_symlink_following = false;
}

module _ (kernel : MountKernel) where
  open kernel use {State, open_tree, open_tree_attr, unshare, setns, chdir, statx}

  -- `same_file_identity`
  unfoldable pub same_file_identity : {E : Type 0} → (SyscallError → E) → ℕ → ℕ → Act State E Bool
  same_file_identity f lhs rhs = do
    l ← call f (statx lhs)
    r ← call f (statx rhs)
    if not l.has_ino || not r.has_ino
        then pure false
        else pure ((l.dev_major == r.dev_major) && (l.dev_minor == r.dev_minor) && (l.ino == r.ino))

  -- `setns(fd, CLONE_NEWNS)?; chdir("/")?;`
  abbrev pub enter_namespace : ℕ → Guest kernel (Unit {0})
  enter_namespace namespace_fd = do
    sys kernel (setns namespace_fd (clone_newns ∷ []))
    sys kernel (chdir (codes "/"))

  abbrev pub bind_attr : MountAttributes → MountAttr
  bind_attr attributes = record {
    attr_set = into_mount_attr attributes;
    propagation = ms_private ∷ [];
  }

  -- The detached mount, with the check of a file's identity behind it. A mount that is not the
  -- expected file is dropped.
  unfoldable pub open_detached : Option FileInfo → Flags → MountAttributes → Guest kernel OwnedFd
  unfolding into_mount_attr same_file_identity
  open_detached none flags attributes =
      sys kernel (open_tree_attr cwd (codes "/") flags (bind_attr attributes))
  open_detached (some info) flags attributes = do
    mount ← sys kernel (
        open_tree_attr cwd info.name (with_flag_if info.is_symlink (at_symlink_nofollow ∷ []) flags)
          (bind_attr attributes))
    or_close kernel mount (do
      same ← same_file_identity syscall info.original_fd mount
      if same then pure mount else fail (other host_sourced_file_mismatch))

  abbrev pub clone_flags : Bool → Flags
  clone_flags is_recursive =
      with_flag_if is_recursive (at_recursive ∷ []) (open_tree_clone ∷ open_tree_cloexec ∷ [])

  -- The body of the loop over `namespace_fd_scratch_space`.
  unfoldable pub detach_bind : NamespaceFd → Slots → Guest kernel Slots
  unfolding open_detached write_slot
  detach_bind n slots = do
    enter_namespace n.namespace_fd
    mount ← open_detached n.file_info (clone_flags n.is_recursive) n.attributes
    write_slot n.index (ResolvedMount.fd mount n.destination (is_none n.file_info)) slots

  unfoldable pub detach_binds : List NamespaceFd → Slots → Guest kernel Slots
  unfolding detach_bind
  detach_binds [] slots = pure slots
  detach_binds (n ∷ rest) slots = do slots' ← detach_bind n slots; detach_binds rest slots'

  -- `OVERLAY_OPEN_TREE_FLAGS` and `OVERLAY_MOUNT_ATTR`
  abbrev pub overlay_flags : Flags
  overlay_flags = open_tree_clone ∷ open_tree_cloexec ∷ at_recursive ∷ []

  -- The loop over `overlay_mount_scratch_space`: each namespace is replaced, and dropped.
  unfoldable pub detach_overlays : List OwnedFd → Guest kernel (List OwnedFd)
  unfolding into_mount_attr
  detach_overlays [] = pure []
  detach_overlays (namespace_fd ∷ rest) = do
    enter_namespace namespace_fd
    mount ← sys kernel (open_tree_attr cwd (codes "/") overlay_flags (bind_attr upper_attributes))
    mounts ← (λ s. detach_overlays rest (MountKernel.close kernel namespace_fd s))
    pure (mount ∷ mounts)

  -- The original namespace is entered again, and dropped.
  unfoldable pub detach_all : OwnedFd → Scratch → Slots → Guest kernel (Slots × Scratch)
  unfolding detach_binds detach_overlays
  detach_all original scratch slots = and_close kernel original (do
    slots' ← detach_binds scratch.namespace_fds.elements slots
    mounts ← detach_overlays scratch.overlay_fds.elements
    sys kernel (setns original (clone_newns ∷ []))
    pure
        (slots', record scratch { overlay_fds = record scratch.overlay_fds { elements = mounts } }))

  -- What follows the first `for`.
  unfoldable pub detach : Scratch → Slots → Guest kernel (ℕ × Slots × Scratch)
  unfolding detach_all
  detach scratch slots = do
    sys kernel (unshare (clone_newns ∷ []))
    original ← sys kernel (
        open_tree cwd (codes "/")
          (open_tree_namespace ∷ open_tree_cloexec ∷ at_empty_path ∷ at_recursive ∷ []))
    r ← detach_all original scratch slots
    sys kernel (chdir (codes "/"))
    pure (length scratch.namespace_fds.elements, r.0, r.1)

  -- `resolve_bind_mappings`: the number of slots that it wrote, the slots and the scratch spaces.
  unfoldable pub resolve_bind_mappings :
      Entries → ℕ → Slots → Scratch → Guest kernel (ℕ × Slots × Scratch)
  unfolding capture_loop detach
  resolve_bind_mappings mappings len slots scratch =
      if not (len == 0)
      then fail (other nonzero_resolved_len)
      else if not (leb (length mappings) slots.capacity)
      then fail too_small
      else if not (leb (length mappings) scratch.namespace_fds.capacity)
      then fail too_small
      else (capture_loop kernel 0 mappings scratch >>= λ captured. detach captured slots)
