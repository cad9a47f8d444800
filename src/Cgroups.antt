-- ===== src/Cgroups.antt =====
-- The cgroup policy: crates/bubblebox/src/platform/linux/cgroups/policy.rs.
pub mod Errors
pub mod Values
pub mod Clamps
pub mod Files
pub mod Core
pub mod Cpu
pub mod Memory
pub mod Io
pub mod Pids
pub mod Policy
pub mod Tokens
pub mod Reading
pub mod Applied
