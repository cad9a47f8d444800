-- ===== src/Spawn/Wire.antt =====
-- The error that the guest sends to the host over a pipe: `PostSpawnGuest` and its decoding in
-- crates/bubblebox/src/platform/linux/spawn/errors.rs, its encoding in
-- crates/bubblebox/src/platform/linux/spawn/wire.rs. `u8::MAX - k` is written as its value.
use layer_cake.Prelude.{
  ℕ, ◌+◌, ◌-◌, Option, none, some, ◌==◌, ltb, if◌then◌else◌, Result, ok, err, ok_or, ◌>>=◌,
}
use layer_cake.Prelude.Int.{ℤ, pos, negsuc}
use layer_cake.Meowix.Errors.{
  Errno, raw_os_error, from_raw_os_error, SyscallError, syscall_to_u8, syscall_from_u8, Netlink,
  malformed_header, truncated_message, sequence_mismatch, incorrect_size, ack_timeout, errno_value,
  invalid_error, syscall_error,
}

-- `PostSpawnGuestOther`
pub data PostSpawnGuestOther : Type 0 where
  invalid_cgroups_state buffer_too_small integer_overflow : PostSpawnGuestOther
  invalid_directory_mount_point invalid_regular_file_mount_point : PostSpawnGuestOther
  destination_exists mappings_length_mismatch nonzero_resolved_len : PostSpawnGuestOther
  host_sourced_file_mismatch : PostSpawnGuestOther

-- `PostSpawnGuest`
pub data PostSpawnGuest : Type 0 where
  syscall : SyscallError → PostSpawnGuest
  netlink : Netlink → PostSpawnGuest
  other : PostSpawnGuestOther → PostSpawnGuest
  incomplete_write c_str_buffer_too_small : PostSpawnGuest
  from_bytes_with_nul_error invalid_wire_format : PostSpawnGuest

-- `PostSpawnGuestWire`
pub record PostSpawnGuestWire : Type 0 where
  pub tag : ℕ
  pub subtag : ℕ
  pub value : ℤ

-- `e as u8`
unfoldable pub other_to_u8 : PostSpawnGuestOther → ℕ
other_to_u8 invalid_cgroups_state = 0
other_to_u8 PostSpawnGuestOther.buffer_too_small = 1
other_to_u8 PostSpawnGuestOther.integer_overflow = 2
other_to_u8 invalid_directory_mount_point = 3
other_to_u8 invalid_regular_file_mount_point = 4
other_to_u8 destination_exists = 5
other_to_u8 mappings_length_mismatch = 6
other_to_u8 nonzero_resolved_len = 7
other_to_u8 host_sourced_file_mismatch = 8

-- `From<u8> for PostSpawnGuest`
unfoldable pub other_from_u8 : ℕ → PostSpawnGuest
other_from_u8 v =
    if v == 0
    then other invalid_cgroups_state
    else if v == 1
    then other PostSpawnGuestOther.buffer_too_small
    else if v == 2
    then other PostSpawnGuestOther.integer_overflow
    else if v == 3
    then other invalid_directory_mount_point
    else if v == 4
    then other invalid_regular_file_mount_point
    else if v == 5
    then other destination_exists
    else if v == 6
    then other mappings_length_mismatch
    else if v == 7
    then other nonzero_resolved_len
    else if v == 8
    then other host_sourced_file_mismatch
    else invalid_wire_format

-- The subtag and value of a netlink error.
unfoldable pub netlink_to_wire : Netlink → ℕ × ℤ
netlink_to_wire malformed_header = (0, pos 1)
netlink_to_wire truncated_message = (0, pos 2)
netlink_to_wire sequence_mismatch = (0, pos 3)
netlink_to_wire incorrect_size = (0, pos 4)
netlink_to_wire Netlink.buffer_too_small = (0, pos 5)
netlink_to_wire Netlink.integer_overflow = (0, pos 6)
netlink_to_wire Netlink.incomplete_write = (0, pos 7)
netlink_to_wire ack_timeout = (0, pos 8)
netlink_to_wire (errno_value e) = (255, raw_os_error e)
netlink_to_wire (invalid_error v) = (254, v)
netlink_to_wire (syscall_error e) =
    if ltb (syscall_to_u8 e.syscall) 255
    then (syscall_to_u8 e.syscall + 1, raw_os_error e.error)
    else (0, pos 0x7fffffff)

abbrev wire : ℕ → ℕ → ℤ → PostSpawnGuestWire
wire t s v = record { tag = t; subtag = s; value = v }

-- `From<Result<(), PostSpawnGuest>> for PostSpawnGuestWire`
unfoldable pub error_to_wire : PostSpawnGuest → PostSpawnGuestWire
unfolding netlink_to_wire other_to_u8
error_to_wire (syscall e) = wire 254 (syscall_to_u8 e.syscall) (raw_os_error e.error)
error_to_wire (netlink e) = let (s, v) = netlink_to_wire e in wire 253 s v
error_to_wire PostSpawnGuest.incomplete_write = wire 252 0 (pos 0)
error_to_wire c_str_buffer_too_small = wire 251 0 (pos 0)
error_to_wire from_bytes_with_nul_error = wire 250 0 (pos 0)
error_to_wire invalid_wire_format = wire 249 0 (pos 0)
error_to_wire (other e) = wire (other_to_u8 e) 0 (pos 0)

unfoldable pub to_wire : Result (Unit {0}) PostSpawnGuest → PostSpawnGuestWire
unfolding error_to_wire
to_wire (ok _) = wire 255 0 (pos 0)
to_wire (err e) = error_to_wire e

-- A `match` on an `i32` against the literals 1 to 8.
unfoldable pub simple_netlink : ℤ → Option Netlink
simple_netlink (negsuc n) = none
simple_netlink (pos v) =
    if v == 1
    then some malformed_header
    else if v == 2
    then some truncated_message
    else if v == 3
    then some sequence_mismatch
    else if v == 4
    then some incorrect_size
    else if v == 5
    then some Netlink.buffer_too_small
    else if v == 6
    then some Netlink.integer_overflow
    else if v == 7
    then some Netlink.incomplete_write
    else if v == 8
    then some ack_timeout
    else none

-- The errors are values here: the decoded result is `err` of a decoded error, and an error that
-- cannot be decoded is `err invalid_wire_format` by `?`.
abbrev errno_from : ℤ → Result Errno PostSpawnGuest
errno_from value = ok_or (from_raw_os_error value) invalid_wire_format

unfoldable pub netlink_from_wire : ℕ → ℤ → Result Netlink PostSpawnGuest
unfolding simple_netlink
netlink_from_wire subtag value =
    if subtag == 0
    then ok_or (simple_netlink value) invalid_wire_format
    else if subtag == 255
    then (do e ← errno_from value; ok (errno_value e))
    else if subtag == 254
    then ok (invalid_error value)
    else (do
      e ← errno_from value
      ok (syscall_error (record { syscall = syscall_from_u8 (subtag - 1); error = e })))

abbrev fail_with : Result PostSpawnGuest PostSpawnGuest → Result (Unit {0}) PostSpawnGuest
fail_with r = r >>= λ e. err e

-- `From<PostSpawnGuestWire> for Result<(), PostSpawnGuest>`
unfoldable pub from_wire : PostSpawnGuestWire → Result (Unit {0}) PostSpawnGuest
unfolding netlink_from_wire other_from_u8
from_wire w =
    if w.tag == 255
    then ok tt
    else if w.tag == 254
    then fail_with (do
      e ← errno_from w.value
      ok (syscall (record { syscall = syscall_from_u8 w.subtag; error = e })))
    else if w.tag == 253
    then fail_with (do e ← netlink_from_wire w.subtag w.value; ok (netlink e))
    else if w.tag == 252
    then err PostSpawnGuest.incomplete_write
    else if w.tag == 251
    then err c_str_buffer_too_small
    else if w.tag == 250
    then err from_bytes_with_nul_error
    else err (other_from_u8 w.tag)
