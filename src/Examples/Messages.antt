-- ===== src/Examples/Messages.antt =====
-- Errors on the wire at concrete inputs.
use layer_cake.Prelude.{◌≡◌, ok, err, arith}
use layer_cake.Meowix.Errors.{errno, sendto, syscall_error}
use layer_cake.Spawn.Wire.{PostSpawnGuest, netlink, to_wire, from_wire}
use layer_cake.Spawn.WireLaws.{received, from_wire-to_wire}

-- EAGAIN from sendto(2) on the netlink socket
abbrev busy : PostSpawnGuest
busy = netlink (syscall_error (record { syscall = sendto; error = errno 11 }))

from_wire-to_wire_example :
    (from_wire (to_wire (err busy)) ≡ err busy) × (from_wire (to_wire (ok tt)) ≡ ok tt)
unfolding received
from_wire-to_wire_example = from_wire-to_wire busy (omega arith, omega arith)
