-- ===== src/Meowix.antt =====
-- The syscall library: crates/meowix.
pub mod Errors
pub mod Act
pub mod Turns
pub mod Gives
pub mod Io
pub mod Digits
pub mod Flags
pub mod Answers
pub mod Files
pub mod Capabilities
pub mod Netlink
