-- ===== src/Meowix/Errors.antt =====
-- Errors of syscalls: crates/meowix/src/errors.rs and crates/meowix/src/errno.rs.
pub mod Laws
use layer_cake.Prelude.{
  zero, suc, suc, ℕ, ◌+◌, ◌-◌, ◌%◌, ◌^◌, ◌≤◌, ◌<◌, Bool, ◌&&◌, Option, none, some, List, [], ◌∷◌,
  ltb, leb, ◌==◌, if◌then◌else◌,
}
use layer_cake.Prelude.Int.{ℤ, to_unsigned, to_signed, neg}

-- `Errno`: the bits of the negated error number as a `u16`, in 0xf001..=0xffff.
pub record Errno : Type 0 where
  pub encoded : ℕ

abbrev pub IsErrno : Errno → Type 0
IsErrno e = (0xf001 ≤ e.encoded) × (e.encoded ≤ 0xffff)

-- `Errno::raw_os_error`: `(self.into_u16() as i16 as i32).wrapping_neg()`
unfoldable pub raw_os_error : Errno → ℤ
unfolding neg to_signed
raw_os_error e = neg (to_signed 16 e.encoded)

-- `Errno::from_errno`: `raw.wrapping_neg() as u16` where `raw` is in 1..=4095
unfoldable pub from_errno : ℕ → Option Errno
from_errno raw =
    if leb 1 raw && leb raw 4095
    then some (record { encoded = (2 ^ 32 - raw) % 2 ^ 32 % 2 ^ 16 })
    else none

-- `Errno::from_raw_os_error`
unfoldable pub from_raw_os_error : ℤ → Option Errno
unfolding from_errno to_unsigned
from_raw_os_error raw = from_errno (to_unsigned 32 raw)

-- The error that the program retries on and the others that it tests for.
abbrev pub errno : ℕ → Errno
errno n = record { encoded = 2 ^ 16 - n }

abbrev pub intr : Errno
intr = errno 4

-- `Syscall`
pub data Syscall : Type 0 where
  pipe2 clone3 openat2 write open_tree open_tree_attr dup3 mount_setattr statx read : Syscall
  mkdirat eventfd2 close_range capset prctl unshare setsid setdomainname sethostname : Syscall
  chdir umount2 chroot move_mount fchdir fsmount fsconfig fsopen mount setns : Syscall
  rt_sigaction rt_sigprocmask ppoll recvmsg sendto socket ioctl pidfd_open getegid : Syscall
  geteuid gettid pidfd_send_signal umask waitid execveat symlinkat fcntl seccomp : Syscall
  keyctl prlimit64 sched_setattr close getdents64 lseek writev flock readv linkat : Syscall
  fsetxattr fchmod : Syscall
  unknown : Syscall

-- The discriminants.
unfoldable pub syscall_to_u8 : Syscall → ℕ
syscall_to_u8 pipe2 = 0
syscall_to_u8 clone3 = 1
syscall_to_u8 openat2 = 2
syscall_to_u8 write = 3
syscall_to_u8 open_tree = 4
syscall_to_u8 open_tree_attr = 5
syscall_to_u8 dup3 = 6
syscall_to_u8 mount_setattr = 7
syscall_to_u8 statx = 8
syscall_to_u8 read = 9
syscall_to_u8 mkdirat = 10
syscall_to_u8 eventfd2 = 11
syscall_to_u8 close_range = 12
syscall_to_u8 capset = 13
syscall_to_u8 prctl = 14
syscall_to_u8 unshare = 15
syscall_to_u8 setsid = 16
syscall_to_u8 setdomainname = 17
syscall_to_u8 sethostname = 18
syscall_to_u8 chdir = 19
syscall_to_u8 umount2 = 20
syscall_to_u8 chroot = 21
syscall_to_u8 move_mount = 22
syscall_to_u8 fchdir = 23
syscall_to_u8 fsmount = 24
syscall_to_u8 fsconfig = 25
syscall_to_u8 fsopen = 26
syscall_to_u8 mount = 27
syscall_to_u8 setns = 28
syscall_to_u8 rt_sigaction = 29
syscall_to_u8 rt_sigprocmask = 30
syscall_to_u8 ppoll = 31
syscall_to_u8 recvmsg = 32
syscall_to_u8 sendto = 33
syscall_to_u8 socket = 34
syscall_to_u8 ioctl = 35
syscall_to_u8 pidfd_open = 36
syscall_to_u8 getegid = 37
syscall_to_u8 geteuid = 38
syscall_to_u8 gettid = 39
syscall_to_u8 pidfd_send_signal = 40
syscall_to_u8 umask = 41
syscall_to_u8 waitid = 42
syscall_to_u8 execveat = 43
syscall_to_u8 symlinkat = 44
syscall_to_u8 fcntl = 45
syscall_to_u8 seccomp = 46
syscall_to_u8 keyctl = 47
syscall_to_u8 prlimit64 = 48
syscall_to_u8 sched_setattr = 49
syscall_to_u8 close = 50
syscall_to_u8 getdents64 = 51
syscall_to_u8 lseek = 52
syscall_to_u8 writev = 53
syscall_to_u8 flock = 54
syscall_to_u8 readv = 55
syscall_to_u8 linkat = 56
syscall_to_u8 fsetxattr = 57
syscall_to_u8 fchmod = 58
syscall_to_u8 unknown = 255

-- `From<u8> for Syscall`: the variants by number, then `Unknown`.
abbrev numbered : List Syscall
numbered =
    pipe2 ∷ clone3 ∷ openat2 ∷ write ∷ open_tree ∷ open_tree_attr ∷ dup3 ∷ mount_setattr ∷ statx
    ∷ read ∷ mkdirat ∷ eventfd2 ∷ close_range ∷ capset ∷ prctl ∷ unshare ∷ setsid ∷ setdomainname
    ∷ sethostname ∷ chdir ∷ umount2 ∷ chroot ∷ move_mount ∷ fchdir ∷ fsmount ∷ fsconfig ∷ fsopen
    ∷ mount ∷ setns ∷ rt_sigaction ∷ rt_sigprocmask ∷ ppoll ∷ recvmsg ∷ sendto ∷ socket ∷ ioctl
    ∷ pidfd_open ∷ getegid ∷ geteuid ∷ gettid ∷ pidfd_send_signal ∷ umask ∷ waitid ∷ execveat
    ∷ symlinkat ∷ fcntl ∷ seccomp ∷ keyctl ∷ prlimit64 ∷ sched_setattr ∷ close ∷ getdents64 ∷ lseek
    ∷ writev ∷ flock ∷ readv ∷ linkat ∷ fsetxattr ∷ fchmod ∷ []

abbrev nth_syscall : List Syscall → ℕ → Syscall
nth_syscall [] n = unknown
nth_syscall (s ∷ ss) zero = s
nth_syscall (s ∷ ss) (suc n) = nth_syscall ss n

unfoldable pub syscall_from_u8 : ℕ → Syscall
syscall_from_u8 n = nth_syscall numbered n

-- `SyscallError`
pub record SyscallError : Type 0 where
  pub syscall : Syscall
  pub error : Errno

-- `Netlink`
pub data Netlink : Type 0 where
  malformed_header truncated_message sequence_mismatch incorrect_size : Netlink
  buffer_too_small integer_overflow incomplete_write ack_timeout : Netlink
  errno_value : Errno → Netlink
  invalid_error : ℤ → Netlink
  syscall_error : SyscallError → Netlink
