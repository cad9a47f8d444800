-- ===== src/Mounts/Sources.antt =====
-- The constructors of `Mount`: crates/bubblebox/src/platform/linux/mounts.rs.
use layer_cake.Prelude.{ℕ, Bool, true, false, Option, none, some, List, Bytes}
use layer_cake.Paths.Guest.{GuestInner}
use layer_cake.Mounts.{
  OwnedFd, Mode, MountAttributes, ProcHidepid, ProcSubset, ProcPidNamespace, user, TmpfsSize,
  BindMount, directory, UpperDirs, MountInner, Mount,
}

-- `HostFile` of crates/bubblebox/src/platform/linux/paths.rs, with `into_parts` as its fields.
pub record HostFile : Type 0 where
  pub dirfd : OwnedFd
  pub name : Bytes
  pub fd : OwnedFd
  pub is_symlink : Bool

-- `HostDirectory`, whose `into_fd` is the identity
abbrev pub HostDirectory : Type 0
HostDirectory = OwnedFd

-- The attribute literals of the constructors.
abbrev attrs : Bool → Bool → Bool → Bool → Bool → MountAttributes
attrs r s d x l = record {
  read_only = r;
  no_setuid = s;
  no_devices = d;
  no_execution = x;
  no_symlink_following = l;
}

abbrev of : MountInner → Mount
of i = record { inner = i }

unfoldable pub bind_file : HostFile → MountAttributes → Mount
bind_file f a = of (
    MountInner.bind (
      BindMount.file (record {
        dirfd = f.dirfd;
        name = f.name;
        fd = f.fd;
        attributes = a;
        is_symlink = f.is_symlink;
      })))

unfoldable pub read_only_file : HostFile → Mount
unfolding bind_file
read_only_file f = bind_file f (attrs true true true false false)

unfoldable pub read_write_file : HostFile → Mount
unfolding bind_file
read_write_file f = bind_file f (attrs false true true false false)

unfoldable pub device_file : HostFile → Mount
unfolding bind_file
device_file f = bind_file f (attrs false true false false false)

unfoldable pub bind_directory : HostDirectory → MountAttributes → Bool → Mount
bind_directory d a recursive = of (MountInner.bind (directory d a recursive))

unfoldable pub read_only_directory : HostDirectory → Mount
unfolding bind_directory
read_only_directory d = bind_directory d (attrs true true true false false) true

unfoldable pub read_write_directory : HostDirectory → Mount
unfolding bind_directory
read_write_directory d = bind_directory d (attrs false true true false false) true

abbrev procfs : ProcHidepid → Option ℕ → ProcSubset → ProcPidNamespace → Mount
procfs h g s n = of (
    MountInner.procfs (record {
      hidepid = h;
      gid = g;
      subset = s;
      namespace = n;
      attributes = attrs false true true true false;
    }))

unfoldable pub proc : ProcHidepid → ProcSubset → Mount
proc h s = procfs h none s ProcPidNamespace.guest

unfoldable pub proc_with_pid_namespace : ProcHidepid → ProcSubset → OwnedFd → Mount
proc_with_pid_namespace h s n = procfs h none s (ProcPidNamespace.fd n)

unfoldable pub proc_with_privileged_gid : ProcHidepid → ℕ → ProcSubset → Mount
proc_with_privileged_gid h g s = procfs h (some g) s ProcPidNamespace.guest

unfoldable pub proc_with_privileged_gid_and_pid_namespace :
    ProcHidepid → ℕ → ProcSubset → OwnedFd → Mount
proc_with_privileged_gid_and_pid_namespace h g s n = procfs h (some g) s (ProcPidNamespace.fd n)

unfoldable pub mqueue : Mount
mqueue = of (MountInner.mqueue (attrs false true true true false))

unfoldable pub file : Bytes → Mode → Mount
file contents permissions =
    of (MountInner.file (record { contents = contents; owner = user; permissions = permissions }))

unfoldable pub symlink : GuestInner → Mount
symlink source = of (MountInner.symlink source)

unfoldable pub empty_directory : Mode → Mount
empty_directory permissions = of (MountInner.empty_directory user permissions)

unfoldable pub tmpfs : TmpfsSize → Option ℕ → Mode → Mount
tmpfs size max_inodes permissions = of (
    MountInner.tmpfs (record {
      size = size;
      max_inodes = max_inodes;
      owner = user;
      permissions = permissions;
      attributes = attrs false true true false false;
    }))

unfoldable pub overlay : List HostDirectory → List HostDirectory → Option UpperDirs → Mount
overlay lowerdirs datadirs upperdirs = of (
    MountInner.overlay (record {
      lowerdirs = lowerdirs;
      datadirs = datadirs;
      upperdirs = upperdirs;
      attributes = attrs false true true false false;
    }))
