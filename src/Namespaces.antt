-- ===== src/Namespaces.antt =====
-- The namespace policy: crates/bubblebox/src/platform/linux/policy/namespace.rs, with the user and
-- group ids of crates/meowix/src/ids.rs.
pub mod Builder
pub mod Apply
pub mod Written
pub mod Calls
use layer_cake.Prelude.{
  ℕ, ◌-◌, ◌^◌, ◌/◌, Bool, true, false, Bytes, Option, none, some, ltb, leb, ◌==◌, if◌then◌else◌,
}
use layer_cake.Prelude.Int.{ℤ, pos, negsuc}

-- `Namespace`
pub data Namespace (Options : Type 0) : Type 0 where
  shared : Namespace Options
  unshared : Options → Namespace Options

-- `is_shared`
abbrev pub is_shared : {Options : Type 0} → Namespace Options → Bool
is_shared shared = true
is_shared (unshared o) = false

-- `unwrap_or_default`, with the default of the options
abbrev pub unwrap_or_default : {Options : Type 0} → Options → Namespace Options → Options
unwrap_or_default d shared = d
unwrap_or_default d (unshared o) = o

-- `IpcOptions` and `NetworkOptions`
pub data IpcOptions : Type 0 where
  ipc_options : IpcOptions

pub data NetworkOptions : Type 0 where
  isolate : NetworkOptions

pub record UtsOptions : Type 0 where
  pub hostname : Option Bytes
  pub domain : Option Bytes

-- `TimeOffset`: an `i64` of seconds and a `u32` of nanoseconds
pub record TimeOffset : Type 0 where
  pub seconds : ℤ
  pub nanoseconds : ℕ

pub record TimeOptions : Type 0 where
  pub monotonic_offset : Option TimeOffset
  pub boottime_offset : Option TimeOffset

-- `UserMappingMode::Simple`
pub record UserMappingMode : Type 0 where
  pub uid : Option ℕ
  pub gid : Option ℕ

pub record UserOptions : Type 0 where
  pub mapping_mode : UserMappingMode
  pub disable_userns : Bool

pub record Namespaces : Type 0 where
  pub ipc : Namespace IpcOptions
  pub network : Namespace NetworkOptions
  pub uts : Namespace UtsOptions
  pub time : Namespace TimeOptions
  pub user : UserOptions

-- `KTIME_SEC_MAX`
abbrev pub ktime_sec_max : ℕ
ktime_sec_max = (2 ^ 63 - 1) / 1000000000

-- The range test of `TimeOffsetSeconds::new`
abbrev pub in_range : ℤ → Bool
in_range (pos n) = leb n ktime_sec_max
in_range (negsuc n) = ltb n ktime_sec_max

-- `TimeOffsetSeconds::new`
unfoldable pub offset_seconds : ℤ → Option ℤ
offset_seconds value = if in_range value then some value else none

-- `TimeOffsetNanoseconds::new`
unfoldable pub offset_nanoseconds : ℕ → Option ℕ
offset_nanoseconds value = if ltb value 1000000000 then some value else none

-- `Uid::from_raw` and `Gid::from_raw`
unfoldable pub id_from_raw : ℕ → Option ℕ
id_from_raw value = if value == 2 ^ 32 - 1 then none else some value
