-- ===== src/Spawn.antt =====
-- The spawn of a sandboxed process: crates/bubblebox/src/platform/linux/spawn.
pub mod Wire
pub mod WireLaws
pub mod Fmt
pub mod Protocol
pub mod Mounts
pub mod Attach
pub mod Keyring
