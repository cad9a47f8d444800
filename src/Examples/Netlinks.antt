-- ===== src/Examples/Netlinks.antt =====
-- Netlink messages and the set-up of the loopback interface at concrete inputs.
use layer_cake.Prelude.{
  ℕ, zero, suc, ◌+◌, ◌*◌, ◌/◌, ◌%◌, ◌≤◌, ◌<◌, ◌≡◌, refl, Bool, true, false, Bytes, [], ◌∷◌, ◌++◌,
  take, length, length-take, ltb, Bool-cases, inl, inr, Result, ok, err, if◌then◌else◌, arith,
}
use layer_cake.Meowix.Errors.{unknown, errno, SyscallError}
use layer_cake.Meowix.Act.{done, Call}
use layer_cake.Meowix.Netlink.{
  Message, write_add_loopback_address, address_info, attribute, loopback,
}
use layer_cake.Meowix.Netlink.Ack.{find_answer}
use layer_cake.Meowix.Netlink.Parsed.{Verdict, find_answer-Verdict}
use layer_cake.Meowix.Netlink.Finished.{IsMessage}
use layer_cake.Meowix.Netlink.Built.{write_add_loopback_address_lem}
use layer_cake.Meowix.Netlink.Setup.{NetlinkKernel, setup_loopback, zeroed}
use layer_cake.Meowix.Gives.{◌>>=◌}
use layer_cake.Meowix.Turns.{turns}
use layer_cake.Prelude.Int.{to_signed}
use layer_cake.Meowix.Netlink.Acked.{NetlinkSettles, goes_on}
use layer_cake.Meowix.Netlink.Loopback.{IsUp, setup_loopback-IsUp}
use layer_cake.Examples.Schedulers.{pending, enough}

-- The bytes of numbers with the least byte first.
abbrev u16_bytes : ℕ → Bytes
u16_bytes n = n % 256 ∷ n / 256 % 256 ∷ []

abbrev u32_bytes : ℕ → Bytes
u32_bytes n = n % 256 ∷ n / 256 % 256 ∷ n / 65536 % 256 ∷ n / 16777216 % 256 ∷ []

abbrev read_u16 : Bytes → ℕ
read_u16 (a ∷ b ∷ rest) = a + 256 * b
read_u16 _ = 0

abbrev read_u32 : Bytes → ℕ
read_u32 (a ∷ b ∷ c ∷ d ∷ rest) = a + 256 * b + 65536 * c + 16777216 * d
read_u32 _ = 0

-- An acknowledgement of the message with a number.
abbrev ack : ℕ → Bytes
ack sequence = 36 ∷ 0 ∷ 0 ∷ 0 ∷ 2 ∷ 0 ∷ 0 ∷ 0 ∷ sequence ∷ zeroed 27

find_answer-Verdict_example :
    Verdict read_u16 read_u32 (ack 0) 36 0 (find_answer read_u16 read_u32 (ack 0) 36 0)
find_answer-Verdict_example =
    find_answer-Verdict read_u16 read_u32 (ack 0) 36 0 (omega arith) (omega arith)

write_add_loopback_address_lem_example :
    (m : Message u16_bytes u32_bytes) × (write_add_loopback_address u16_bytes u32_bytes
        (zeroed 1024)
        1
        7
      ≡ ok m)
    × IsMessage u16_bytes u32_bytes
        (λ _. refl)
        (λ _. refl)
        1024
        40
        20
        0x605
        7
        (address_info u16_bytes u32_bytes 1
          ++ (attribute u16_bytes u32_bytes 8 2 ++ loopback)
          ++ (attribute u16_bytes u32_bytes 8 1 ++ loopback))
        m
write_add_loopback_address_lem_example =
    write_add_loopback_address_lem u16_bytes u32_bytes (λ _. refl) (λ _. refl) (zeroed 1024) 1 7
      (omega arith) (omega arith) (omega arith)

-- The message that is acknowledged where this many are left behind.
abbrev acknowledged : ℕ → ℕ
acknowledged zero = 1
acknowledged (suc n) = 0

-- As many acknowledgements as the state says, at most two: of the message 0 and of the message 1.
abbrev receive : ℕ → ℕ → Call ℕ (Bytes × Bool)
receive fd size zero = (err (record { syscall = unknown; error = errno 5 }), zero)
receive fd size (suc n) =
    if ltb n 2
    then (ok (take size (ack (acknowledged n)), false), n)
    else (err (record { syscall = unknown; error = errno 5 }), suc n)

abbrev kernel : NetlinkKernel
kernel = record {
  State = ℕ;
  socket = λ domain s. (ok 3, s);
  interface_name_to_index = λ fd name s. (ok 1, s);
  sendto_nl_kernel = λ fd message s. (ok (length message), s);
  start_timeout = λ s. s;
  ppoll = λ fd s. (ok 1, s);
  recvmsg = receive;
  close = λ fd s. s;
}

receive_falls :
    (fd size s : ℕ)
    → goes_on (receive fd size s).0 ≡ true
    → pending (receive fd size s).1 < pending s
receive_falls fd size zero h = cc
receive_falls fd size (suc n) h = ground (arith, h)

abbrev received : Result (Bytes × Bool) SyscallError → ℕ
received (ok (bytes, truncated)) = length bytes
received (err e) = 0

received_within : (fd size s : ℕ) → received (receive fd size s).0 ≤ size
received_within fd size zero = omega arith
received_within fd size (suc n) = elim (Bool-cases (ltb n 2)) [
  | inl e ↦ rw e (omega (arith, length-take size (ack (acknowledged n))))
  | inr e ↦ rw e (omega arith)
]

receive_fits :
    (fd size s : ℕ) (bytes : Bytes) (truncated : Bool)
    → (receive fd size s).0 ≡ ok (bytes, truncated)
    → length bytes ≤ size
receive_fits fd size s bytes truncated h = rw h at (received_within fd size s)

settles : NetlinkSettles kernel 3
settles = record {
  pending = pending;
  enough = enough;
  sendto_falls = λ fd message s h. cc;
  ppoll_keeps = λ fd s. omega arith;
  ppoll_falls = λ fd s h. cc;
  recvmsg_falls = receive_falls;
  recvmsg_fits = receive_fits;
}

-- A run that succeeds and receives both acknowledgements.
setup_loopback_run : setup_loopback kernel 3 read_u16 read_u32 u16_bytes u32_bytes 2 ≡ (done tt, 0)
unfolding setup_loopback ◌>>=◌ turns to_signed
setup_loopback_run = refl

setup_loopback-IsUp_example : IsUp kernel 3 read_u16 read_u32 settles u16_bytes u32_bytes 2 0
unfolding setup_loopback ◌>>=◌ turns to_signed
setup_loopback-IsUp_example =
    setup_loopback-IsUp kernel 3 read_u16 read_u32 settles u16_bytes u32_bytes 2
