-- ===== src/Namespaces/Builder.antt =====
-- The methods of the types of crates/bubblebox/src/platform/linux/policy/namespace.rs.
use layer_cake.Prelude.{ℕ, Bool, true, Bytes, Option, none, some}
use layer_cake.Prelude.Int.{ℤ, pos}
use layer_cake.Namespaces.{
  shared, unshared, unwrap_or_default, ipc_options, isolate, UtsOptions, TimeOffset, TimeOptions,
  UserOptions, Namespaces,
}

abbrev pub default_uts : UtsOptions
default_uts = record { hostname = none; domain = none }

abbrev pub default_time : TimeOptions
default_time = record { monotonic_offset = none; boottime_offset = none }

abbrev pub default_offset : TimeOffset
default_offset = record { seconds = pos 0; nanoseconds = 0 }

abbrev pub default_user : UserOptions
default_user = record { mapping_mode = record { uid = none; gid = none }; disable_userns = true }

unfoldable pub default : Namespaces
default = record {
  ipc = unshared ipc_options;
  network = unshared isolate;
  uts = unshared default_uts;
  time = unshared default_time;
  user = default_user;
}

unfoldable pub share_ipc : Namespaces → Namespaces
share_ipc n = record n { ipc = shared }

unfoldable pub unshare_ipc : Namespaces → Namespaces
unshare_ipc n = record n { ipc = unshared ipc_options }

unfoldable pub share_network : Namespaces → Namespaces
share_network n = record n { network = shared }

unfoldable pub unshare_network_and_isolate : Namespaces → Namespaces
unshare_network_and_isolate n = record n { network = unshared isolate }

unfoldable pub share_uts : Namespaces → Namespaces
share_uts n = record n { uts = shared }

unfoldable pub unshare_uts : (UtsOptions → UtsOptions) → Namespaces → Namespaces
unshare_uts configure n = record n {
  uts = unshared (configure (unwrap_or_default default_uts n.uts));
}

unfoldable pub share_time : Namespaces → Namespaces
share_time n = record n { time = shared }

unfoldable pub unshare_time : (TimeOptions → TimeOptions) → Namespaces → Namespaces
unshare_time configure n = record n {
  time = unshared (configure (unwrap_or_default default_time n.time));
}

unfoldable pub user_namespace : (UserOptions → UserOptions) → Namespaces → Namespaces
user_namespace configure n = record n { user = configure n.user }

unfoldable pub set_hostname : Bytes → UtsOptions → UtsOptions
set_hostname hostname u = record u { hostname = some hostname }

unfoldable pub clear_hostname : UtsOptions → UtsOptions
clear_hostname u = record u { hostname = none }

unfoldable pub set_domain : Bytes → UtsOptions → UtsOptions
set_domain domain u = record u { domain = some domain }

unfoldable pub clear_domain : UtsOptions → UtsOptions
clear_domain u = record u { domain = none }

-- `unwrap_or_default` of an offset
abbrev pub offset_or_default : Option TimeOffset → TimeOffset
offset_or_default none = default_offset
offset_or_default (some t) = t

unfoldable pub monotonic_offset : (TimeOffset → TimeOffset) → TimeOptions → TimeOptions
monotonic_offset configure t = record t {
  monotonic_offset = some (configure (offset_or_default t.monotonic_offset));
}

unfoldable pub clear_monotonic_offset : TimeOptions → TimeOptions
clear_monotonic_offset t = record t { monotonic_offset = none }

unfoldable pub boottime_offset : (TimeOffset → TimeOffset) → TimeOptions → TimeOptions
boottime_offset configure t = record t {
  boottime_offset = some (configure (offset_or_default t.boottime_offset));
}

unfoldable pub clear_boottime_offset : TimeOptions → TimeOptions
clear_boottime_offset t = record t { boottime_offset = none }

unfoldable pub set_seconds : ℤ → TimeOffset → TimeOffset
set_seconds seconds t = record t { seconds = seconds }

unfoldable pub set_nanoseconds : ℕ → TimeOffset → TimeOffset
set_nanoseconds nanoseconds t = record t { nanoseconds = nanoseconds }

unfoldable pub simple_mapping : Option ℕ → Option ℕ → UserOptions → UserOptions
simple_mapping uid gid u = record u { mapping_mode = record { uid = uid; gid = gid } }

unfoldable pub simple_mapping_identity : UserOptions → UserOptions
unfolding simple_mapping
simple_mapping_identity = simple_mapping none none

unfoldable pub disable_userns : Bool → UserOptions → UserOptions
disable_userns disable u = record u { disable_userns = disable }
