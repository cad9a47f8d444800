-- ===== src/Meowix/Errors/Laws.antt =====
-- Error numbers and syscall numbers round trip: crates/meowix/src/errors.rs, crates/meowix/src/errno.rs.
use layer_cake.Prelude.{◌-◌, ◌<◌, ◌≡◌, ◌≢◌, refl, some, arith}
use layer_cake.Prelude.Int.{pos}
use layer_cake.Meowix.Errors.{
  Errno, IsErrno, raw_os_error, from_raw_os_error, Syscall, unknown, syscall_to_u8, syscall_from_u8,
}

-- The value of `raw_os_error`.
pub raw_os_error-value : (e : Errno) → IsErrno e → raw_os_error e ≡ pos (0x10000 - e.encoded)
unfolding raw_os_error
raw_os_error-value e h = ground arith

-- For an `Errno` in range, `from_raw_os_error` reads the number back that `raw_os_error` gives.
pub from_raw_os_error-raw : (e : Errno) → IsErrno e → from_raw_os_error (raw_os_error e) ≡ some e
unfolding from_raw_os_error
from_raw_os_error-raw e h = rw (raw_os_error-value e h) (ground arith)

-- Every `Syscall` survives its byte.
pub syscall_from_u8-to : (s : Syscall) → syscall_from_u8 (syscall_to_u8 s) ≡ s
unfolding syscall_from_u8 syscall_to_u8
syscall_from_u8-to unknown = refl
syscall_from_u8-to _ = refl

-- A known syscall has a number below that of `Unknown`, with room for the shift of the wire format.
pub syscall_to_u8-lt : (s : Syscall) → s ≢ unknown → syscall_to_u8 s < 59
unfolding syscall_to_u8
syscall_to_u8-lt unknown h = absurd (h refl)
syscall_to_u8-lt _ h = omega arith
