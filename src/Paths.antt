-- ===== src/Paths.antt =====
-- Guest paths: crates/bubblebox/src/paths.rs, and `GuestInner` of
-- crates/bubblebox/src/platform/linux/paths.rs. `Std` holds the part of `std::path` that they use.
pub mod Std
pub mod Guest
pub mod Order
pub mod Names
pub mod RoundTrip
pub mod Errors
