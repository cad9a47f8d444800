-- ===== src/Cgroups/Errors.antt =====
-- The errors of the host that the cgroup policy gives:
-- crates/bubblebox/src/platform/linux/spawn/errors.rs and crates/meowix/src/errors.rs.
use layer_cake.Prelude.{Bytes}
use layer_cake.Meowix.Errors.{SyscallError}

-- `StringRead`, whose `FromUtf8Error` is here the bytes that it gives back
pub data StringRead : Type 0 where
  syscall : SyscallError → StringRead
  utf8 : Bytes → StringRead

pub data CgroupController : Type 0 where
  cpu memory io pids : CgroupController

pub data Host : Type 0 where
  syscall : SyscallError → Host
  string_read : StringRead → Host
  incomplete_write : Host
  missing_cgroup_controller : CgroupController → Host
