-- ===== src/Spawn/WireLaws.antt =====
-- The wire format round trips: crates/bubblebox/src/platform/linux/spawn/wire.rs and errors.rs.
use layer_cake.Prelude.{◌≢◌, ◌≡◌, refl, ok, err}
use layer_cake.Meowix.Errors.{
  Errno, IsErrno, Syscall, unknown, SyscallError, syscall_to_u8, syscall_from_u8, Netlink,
  errno_value, syscall_error, malformed_header,
}
use layer_cake.Meowix.Errors.Laws.{from_raw_os_error-raw, syscall_from_u8-to}
use layer_cake.Spawn.Wire.{
  PostSpawnGuest, syscall, netlink, other, PostSpawnGuestOther, invalid_wire_format,
  invalid_cgroups_state, to_wire, from_wire,
}

-- The error numbers inside an error are in range, as the type `Errno` keeps them.
abbrev pub HasErrnos : PostSpawnGuest → Type 0
HasErrnos (syscall e) = IsErrno e.error
HasErrnos (netlink (errno_value e)) = IsErrno e
HasErrnos (netlink (syscall_error e)) = IsErrno e.error
HasErrnos (netlink malformed_header) = Unit
HasErrnos (netlink _) = Unit
HasErrnos (other e) = Unit
HasErrnos _ = Unit

-- What the host reads for each outcome that the guest sends: the outcome itself, but for a netlink
-- error in an unknown syscall.
unfoldable pub received : PostSpawnGuest → PostSpawnGuest
received (netlink (syscall_error e)) = elim e.syscall [
  | unknown ↦ invalid_wire_format
  | _ ↦ netlink (syscall_error e)
]
received e = e

syscall-wire :
    (e : SyscallError) → IsErrno e.error → from_wire (to_wire (err (syscall e))) ≡ err (syscall e)
unfolding from_wire to_wire
syscall-wire e h = rw (from_raw_os_error-raw e.error h, syscall_from_u8-to e.syscall)

netlink_syscall-wire :
    (s : Syscall) (e : Errno)
    → IsErrno e
    → (let n = netlink (syscall_error (record { syscall = s; error = e })) in
        from_wire (to_wire (err n)) ≡ err (received n))
unfolding from_wire to_wire received syscall_to_u8 syscall_from_u8
netlink_syscall-wire unknown e h = refl
netlink_syscall-wire _ e h = rw (from_raw_os_error-raw e h)

netlink-wire :
    (e : Netlink)
    → HasErrnos (netlink e)
    → from_wire (to_wire (err (netlink e))) ≡ err (received (netlink e))
unfolding from_wire to_wire received
netlink-wire (errno_value e) h = rw (from_raw_os_error-raw e h)
netlink-wire (syscall_error e) h = netlink_syscall-wire e.syscall e.error h
netlink-wire malformed_header h = refl
netlink-wire _ h = refl

other-wire : (e : PostSpawnGuestOther) → from_wire (to_wire (err (other e))) ≡ err (other e)
unfolding from_wire to_wire
other-wire invalid_cgroups_state = refl
other-wire _ = refl

-- The host decodes what the guest has encoded: success as success, and an error whose error numbers
-- are in range as itself, but a netlink error in an unknown syscall as an invalid wire format.
pub from_wire-to_wire :
    (e : PostSpawnGuest)
    → HasErrnos e
    → (from_wire (to_wire (err e)) ≡ err (received e)) × (from_wire (to_wire (ok tt)) ≡ ok tt)
unfolding from_wire to_wire received
from_wire-to_wire (syscall e) h = (syscall-wire e h, refl)
from_wire-to_wire (netlink e) h = (netlink-wire e h, refl)
from_wire-to_wire (other e) h = (other-wire e, refl)
from_wire-to_wire _ h = (refl, refl)

-- An error whose error numbers are in range is not decoded as success.
pub to_wire-ne_success : (e : PostSpawnGuest) → HasErrnos e → from_wire (to_wire (err e)) ≢ ok tt
to_wire-ne_success e h = rw ((from_wire-to_wire e h).0) (λ p. cc)
