-- ===== src/Spawn/Mounts/Capture.antt =====
-- The first loop of `resolve_bind_mappings` of crates/bubblebox/src/platform/linux/spawn/mounts.rs,
-- which opens namespaces for what is mounted from the host.
use layer_cake.Prelude.{
  ℕ, ◌+◌, Bool, true, false, Bytes, List, [], ◌∷◌, ◌++◌, Option, none, some, if◌then◌else◌,
}
use layer_cake.Prelude.Text.{codes}
use layer_cake.Meowix.Gives.{◌>>=◌, pure}
use layer_cake.Paths.Guest.{GuestInner}
use layer_cake.Mounts.{
  OwnedFd, MountAttributes, BindMount, directory, UpperDirs, MountInner, Overlay,
}
use layer_cake.Mounts.Validate.{Entries}
use layer_cake.Spawn.Mounts.{
  Flags, open_tree_namespace, open_tree_cloexec, at_empty_path, at_recursive, at, MountKernel,
  Guest, sys, Bounded, push,
}

-- The file that is bound: its name, the file descriptor that verifies it, and whether a symbolic
-- link is opened.
pub record FileInfo : Type 0 where
  pub name : Bytes
  pub original_fd : OwnedFd
  pub is_symlink : Bool

-- The tuples of the scratch spaces.
pub record NamespaceFd : Type 0 where
  pub index : ℕ
  pub namespace_fd : OwnedFd
  pub destination : GuestInner
  pub file_info : Option FileInfo
  pub attributes : MountAttributes
  pub is_recursive : Bool

pub record OverlayMount : Type 0 where
  pub index : ℕ
  pub destination : GuestInner
  pub overlay : Overlay

pub record Scratch : Type 0 where
  pub namespace_fds : Bounded NamespaceFd
  pub overlay_fds : Bounded OwnedFd
  pub overlay_mounts : Bounded OverlayMount

abbrev pub namespace_flags : Flags
namespace_flags = open_tree_namespace ∷ open_tree_cloexec ∷ at_empty_path ∷ []

-- `flags |= flag` under a condition
abbrev pub with_flag_if : Bool → Flags → Flags → Flags
with_flag_if b flag flags = if b then flags ++ flag else flags

-- The parent of the upper directories on the host.
abbrev pub upper_parent : Option UpperDirs → List OwnedFd
upper_parent (some (UpperDirs.fds u)) = u.parent ∷ []
upper_parent (some (UpperDirs.tmpfs size max_inodes)) = []
upper_parent none = []

-- `file_info.is_none()`
abbrev pub is_none : Option FileInfo → Bool
is_none none = true
is_none (some info) = false

module _ (kernel : MountKernel) where
  open kernel use {State, open_tree, open_tree_attr, unshare, setns, chdir, statx}

  -- The namespaces of the constituents of an overlay.
  unfoldable pub capture_dirs : List OwnedFd → Bounded OwnedFd → Guest kernel (Bounded OwnedFd)
  unfolding push
  capture_dirs [] fds = pure fds
  capture_dirs (dir ∷ dirs) fds = do
    namespace_fd ← sys kernel (open_tree (at dir) (codes "") namespace_flags)
    fds' ← push namespace_fd fds
    capture_dirs dirs fds'

  -- `namespace_fd_scratch_space.push_within_capacity(…)` behind the `match`.
  abbrev pub capture_bind :
      OwnedFd → Flags → (OwnedFd → NamespaceFd) → Scratch → Guest kernel Scratch
  capture_bind dirfd flags entry scratch = do
    namespace_fd ← sys kernel (open_tree (at dirfd) (codes "") flags)
    fds ← push (entry namespace_fd) scratch.namespace_fds
    pure (record scratch { namespace_fds = fds })

  abbrev pub capture_overlay : ℕ → GuestInner → Overlay → Scratch → Guest kernel Scratch
  capture_overlay i destination o scratch = do
    mounts ←
        push (record { index = i; destination = destination; overlay = o }) scratch.overlay_mounts
    lower ← capture_dirs (o.lowerdirs ++ o.datadirs) scratch.overlay_fds
    fds ← capture_dirs (upper_parent o.upperdirs) lower
    pure (record scratch { overlay_fds = fds; overlay_mounts = mounts })

  -- The body of the first `for`.
  unfoldable pub capture : ℕ → GuestInner → MountInner → Scratch → Guest kernel Scratch
  unfolding capture_dirs push
  capture i destination (MountInner.bind (BindMount.file f)) scratch =
      capture_bind f.dirfd namespace_flags
        (λ namespace_fd. record {
          index = i;
          namespace_fd = namespace_fd;
          destination = destination;
          file_info =
              some (record { name = f.name; original_fd = f.fd; is_symlink = f.is_symlink });
          attributes = f.attributes;
          is_recursive = false;
        })
        scratch
  capture i destination (MountInner.bind (directory dir attributes is_recursive)) scratch =
      capture_bind dir (with_flag_if is_recursive (at_recursive ∷ []) namespace_flags)
        (λ namespace_fd. record {
          index = i;
          namespace_fd = namespace_fd;
          destination = destination;
          file_info = none;
          attributes = attributes;
          is_recursive = is_recursive;
        })
        scratch
  capture i destination (MountInner.overlay o) scratch = capture_overlay i destination o scratch
  capture i destination _ scratch = pure scratch

  unfoldable pub capture_loop : ℕ → Entries → Scratch → Guest kernel Scratch
  unfolding capture
  capture_loop i [] scratch = pure scratch
  capture_loop i ((destination, source) ∷ rest) scratch = do
    scratch' ← capture i destination source.inner scratch
    capture_loop (i + 1) rest scratch'
