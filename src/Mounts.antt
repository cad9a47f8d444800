-- ===== src/Mounts.antt =====
-- Mounts: crates/bubblebox/src/platform/linux/mounts.rs.
-- A file descriptor is its number, a mode its bits, and a guest path a `GuestInner`.
pub mod Attributes
pub mod Sources
pub mod Validate
pub mod Tree
pub mod Valid
pub mod TreeLaws
use layer_cake.Prelude.{ℕ, Bool, true, false, not, Option, none, some, List, Bytes}
use layer_cake.Paths.Guest.{GuestInner}

abbrev pub OwnedFd : Type 0
OwnedFd = ℕ

abbrev pub Mode : Type 0
Mode = ℕ

-- `MountAttributes`
pub record MountAttributes : Type 0 where
  pub read_only : Bool
  pub no_setuid : Bool
  pub no_devices : Bool
  pub no_execution : Bool
  pub no_symlink_following : Bool

-- `ProcHidepid`
pub data ProcHidepid : Type 0 where
  off no_access invisible ptraceable : ProcHidepid

-- `ProcSubset`
pub data ProcSubset : Type 0 where
  full pid : ProcSubset

-- `ProcPidNamespace`
pub data ProcPidNamespace : Type 0 where
  guest : ProcPidNamespace
  fd : OwnedFd → ProcPidNamespace

-- `Owner`
pub data Owner : Type 0 where
  user : Owner

-- `TmpfsSize`
pub data TmpfsSize : Type 0 where
  unlimited : TmpfsSize
  bytes percent : ℕ → TmpfsSize

-- `File`
pub record File : Type 0 where
  pub contents : Bytes
  pub owner : Owner
  pub permissions : Mode

-- `BindMount::File`
pub record BindFile : Type 0 where
  pub dirfd : OwnedFd
  pub name : Bytes
  pub fd : OwnedFd
  pub attributes : MountAttributes
  pub is_symlink : Bool

-- `BindMount`
pub data BindMount : Type 0 where
  file : BindFile → BindMount
  directory : OwnedFd → MountAttributes → Bool → BindMount

-- `UpperDirsInner::Fd`
pub record UpperDirsFd : Type 0 where
  pub parent : OwnedFd
  pub upperdir : Bytes
  pub upperdir_fd : OwnedFd
  pub workdir : Bytes
  pub workdir_fd : OwnedFd

-- `UpperDirsInner`, which `UpperDirs` only wraps
pub data UpperDirs : Type 0 where
  fds : UpperDirsFd → UpperDirs
  tmpfs : TmpfsSize → Option ℕ → UpperDirs

-- `MountInner::Procfs`
pub record Procfs : Type 0 where
  pub hidepid : ProcHidepid
  pub gid : Option ℕ
  pub subset : ProcSubset
  pub namespace : ProcPidNamespace
  pub attributes : MountAttributes

-- `MountInner::Tmpfs`
pub record Tmpfs : Type 0 where
  pub size : TmpfsSize
  pub max_inodes : Option ℕ
  pub owner : Owner
  pub permissions : Mode
  pub attributes : MountAttributes

-- `MountInner::Overlay`
pub record Overlay : Type 0 where
  pub lowerdirs : List OwnedFd
  pub datadirs : List OwnedFd
  pub upperdirs : Option UpperDirs
  pub attributes : MountAttributes

-- `MountInner`
pub data MountInner : Type 0 where
  bind : BindMount → MountInner
  procfs : Procfs → MountInner
  mqueue : MountAttributes → MountInner
  file : File → MountInner
  symlink : GuestInner → MountInner
  empty_directory : Owner → Mode → MountInner
  tmpfs : Tmpfs → MountInner
  overlay : Overlay → MountInner

-- `Mount`
pub record Mount : Type 0 where
  pub inner : MountInner

-- `Mount::is_synthetic`: neither a bind mount nor an overlay that writes to the host.
abbrev writes_to_host : Option UpperDirs → Bool
writes_to_host (some (UpperDirs.fds u)) = true
writes_to_host (some (UpperDirs.tmpfs s n)) = false
writes_to_host none = false

unfoldable pub is_synthetic_inner : MountInner → Bool
is_synthetic_inner (MountInner.bind b) = false
is_synthetic_inner (MountInner.overlay o) = not (writes_to_host o.upperdirs)
is_synthetic_inner _ = true

unfoldable pub is_synthetic : Mount → Bool
unfolding is_synthetic_inner
is_synthetic m = is_synthetic_inner m.inner
