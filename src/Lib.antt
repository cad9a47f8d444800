-- ===== src/Lib.antt =====
-- layer-cake: the sandbox `bubblebox` and the system interface `meowix`.
--
-- `bubblebox` runs a program as a guest in a sandbox. Its user builds a policy of several parts: a
-- tree of mounts, file descriptors, resource limits, the scheduler, namespaces, a cgroup. The
-- mounts and the file descriptors are checked on the host. A child process applies the policy
-- before it executes the guest, and reports an error over a pipe. `meowix` gives `bubblebox` its
-- syscalls and their errors.
--
-- Prelude holds tests on numbers, lists, results, bits, buffers and signed integers. The other
-- modules model:
--
--   Meowix/Errors      crates/meowix/src/errno.rs (Errno), crates/meowix/src/errors.rs (Syscall,
--                      SyscallError, Netlink)
--   Meowix/Act         code that makes syscalls, as functions of the kernel's state with an
--                      outcome; `retry_on_interrupt!` of crates/meowix/src/util.rs
--   Meowix/Turns       loops whose body is run in turns until it breaks, with the rule of their
--                      invariants; Meowix/Gives has the rules for code that comes to an end
--   Meowix/Answers     what the calls of such code have answered
--   Meowix/Flags       the flags of the calls
--   Meowix/Files       write_checked! and open_beneath_and_write! of crates/meowix/src/util.rs
--   Meowix/Capabilities  crates/meowix/src/capabilities.rs
--   Meowix/Io          read_until_full, read_array, read_to_end, write_until_stalled and write_all
--                      of crates/meowix/src/util.rs; its children have their properties
--   Meowix/Digits      the numbers of decimal digits of the same file
--   Meowix/Netlink     the messages of crates/meowix/src/netlink.rs; Ack is the search for an
--                      acknowledgement, Setup the exchange with the kernel and setup_loopback, and
--                      Finished, Built, Parsed, Leaves, Acked and Loopback have their properties
--   Paths/Std          the parts of `std::path` on Unix that guest paths use
--   Paths/Guest        Guest of crates/bubblebox/src/paths.rs, GuestInner of
--                      crates/bubblebox/src/platform/linux/paths.rs
--   SortedMap          `BTreeMap`, as its entries in order
--   Mounts             crates/bubblebox/src/platform/linux/mounts.rs
--   Mounts/Validate    is_valid_mount_tree of crates/bubblebox/src/platform/linux/policy/mounts.rs
--   Mounts/Tree        MountTree of the same file
--   FdPolicy           crates/bubblebox/src/platform/linux/policy/fd.rs
--   FdPolicy/Kernel    the kernel's file descriptor table, a parameter
--   FdPolicy/Apply     crates/bubblebox/src/platform/linux/spawn/fd.rs
--   Spawn/Wire         crates/bubblebox/src/platform/linux/spawn/wire.rs and errors.rs
--   Rlimits            crates/bubblebox/src/platform/linux/policy/rlimit.rs and, in Rlimits/Apply,
--                      crates/bubblebox/src/platform/linux/spawn/rlimit.rs
--   Scheduler          crates/bubblebox/src/platform/linux/policy/scheduler.rs and, in
--                      Scheduler/Attr and Scheduler/Apply,
--                      crates/bubblebox/src/platform/linux/spawn/scheduler.rs; Applied has its
--                      properties
--   Namespaces         crates/bubblebox/src/platform/linux/policy/namespace.rs with its builders in
--                      Namespaces/Builder, the ids of crates/meowix/src/ids.rs, and in
--                      Namespaces/Apply crates/bubblebox/src/platform/linux/spawn/namespace.rs;
--                      Written and Calls have its properties
--   Cgroups            crates/bubblebox/src/platform/linux/cgroups/policy.rs. Its children Core, Cpu,
--                      Memory, Io and Pids are the controllers, Values their values, Errors the
--                      errors of spawn/errors.rs that it gives, and Policy the policy with
--                      parse_controllers; Files, Clamps, Tokens, Reading and Applied have its
--                      properties
--   Spawn/Fmt          crates/bubblebox/src/platform/linux/spawn/fmt.rs
--   Spawn/Mounts       the calls and the resolved mounts of
--                      crates/bubblebox/src/platform/linux/spawn/mounts.rs. Its children Tmpfs,
--                      Nonbind, Capture, Bind and Overlays are the functions of that file, and Resolved
--                      has their order in guest_post_clone of spawn/mod.rs beside it; Steps, Sound,
--                      TmpfsLaws, Nonbinds, Captured, Placed, Opened, Detached, Upper, Layers and
--                      Resolved have their properties, in terms of Made, which says what the calls
--                      have answered for a mount
--   Spawn/Protocol     the guest's part of clone_into, and host_post_clone, of
--                      crates/bubblebox/src/platform/linux/spawn/mod.rs; Sent and Verdict have their
--                      properties
--   Spawn/Attach       the new root of a guest and the loop that attaches the resolved mounts, of
--                      guest_post_clone in crates/bubblebox/src/platform/linux/spawn/mod.rs, with
--                      open_parent_in_root of spawn/mounts.rs; Answers, Root and Attached have its
--                      properties
--   Spawn/Keyring      crates/bubblebox/src/platform/linux/spawn/keyring.rs
--   Policy             the builder of crates/bubblebox/src/platform/linux/policy/mod.rs; Policy/Built
--                      has the policies that it gives, as an inductive family
--
-- Paths, Mounts and Mounts/Validate interact as in the program: the tree of mounts is a map that
-- guest paths order, and its validation walks that order with `starts_with`. The kernel is a
-- parameter: FdPolicy/Apply calls it through the record FdKernel, Rlimits/Apply through
-- LimitKernel, Spawn/Mounts through MountKernel, Spawn/Attach through AttachKernel, Spawn/Keyring
-- through KeyringKernel, and Meowix/Netlink through NetlinkKernel. Files that are written at once
-- are those of a FileKernel, which Namespaces/Apply uses, and which is a part of the SchedKernel
-- of Scheduler/Apply and of the CgroupKernel of Cgroups/Policy. The fields of the first two state
-- what the manual pages say of each call, and Examples/Kernels has kernels that fulfil them. The
-- mounts that are resolved are those of a tree that has been validated: the vectors of the guest
-- are as large as the validation has counted. What the guest sends over the pipe is what the host
-- reads: Spawn/Protocol uses write_all and read_array of Meowix/Io and both casts of Spawn/Wire.
--
-- Parameters beside the kernel are `format` of the crate itoa, `format_signed` where a number may
-- be negative, `String::from_utf8` and `split_whitespace` of std, the order of the bytes of a
-- number, the casts of the crate bytemuck between a message and its bytes, and the capacity of a
-- vector that `with_capacity` or `reserve` gives, which is at least what is asked for. Calls of
-- guest_post_clone between the resolving steps are parameters too.
--
-- Numbers are natural numbers; an `i32` is a signed integer, and its cast to `c_uint` and the
-- saturating additions are written out. A loop that retries a syscall is a recursion on fuel, and
-- `stuck` is the outcome where the fuel is used up; fuel above the number of interruptions to come
-- is enough. A read or write loop needs fuel for these and for the bytes. In Spawn/Mounts and in
-- Meowix/Netlink `stuck` is also the outcome of an unchecked access that is out of range. The
-- search for an acknowledgement has fuel for each byte that was read. All other loops are
-- recursions on lists, or on the number of rounds that are left. A string is the list of its
-- bytes, and a `CString` the bytes before its null byte. File descriptors in mounts are numbers.
--
-- Not modelled: the opening of files on the host, the backends of the cgroups, the flags of the
-- clone, the order of all steps of the guest, the store, and the user interfaces. The wrappers of
-- syscalls are not modelled, since they are the parameters.
pub mod Prelude
pub mod Meowix
pub mod Paths
pub mod SortedMap
pub mod Mounts
pub mod FdPolicy
pub mod Spawn
pub mod Rlimits
pub mod Examples
pub mod Scheduler
pub mod Policy
pub mod Namespaces
pub mod Cgroups
