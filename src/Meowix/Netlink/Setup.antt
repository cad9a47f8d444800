-- ===== src/Meowix/Netlink/Setup.antt =====
-- The exchange with the kernel over a netlink socket: crates/meowix/src/netlink.rs. The timeout that
-- ppoll counts down is a part of the state.
use layer_cake.Prelude.{
  ℕ, zero, suc, Bool, true, false, Bytes, [], ◌∷◌, ◌++◌, drop, length, ◌==◌, Result, ok, err,
  if◌then◌else◌,
}
use layer_cake.Prelude.Text.{codes}
use layer_cake.Meowix.Errors.{
  Netlink, truncated_message, ack_timeout, incomplete_write, syscall_error, SyscallError, Errno,
  errno,
}
use layer_cake.Meowix.Act.{Outcome, done, failed, stuck, Act, Call, retry_on_interrupt}
use layer_cake.Meowix.Gives.{◌>>=◌, ◌>>◌, pure, fail, lift, call, retried}
use layer_cake.Meowix.Netlink.{Message, write_add_loopback_address, write_bring_up_loopback_device}
use layer_cake.Meowix.Netlink.Ack.{find_answer}

-- The domains of the sockets, all of datagrams and close-on-exec.
pub data Domain : Type 0 where
  inet netlink : Domain

pub record NetlinkKernel : Type 1 where
  pub State : Type 0
  pub socket : Domain → Call State ℕ
  pub interface_name_to_index : ℕ → Bytes → Call State ℕ
  pub sendto_nl_kernel : ℕ → Bytes → Call State ℕ
  -- The timeout is set to a second.
  pub start_timeout : State → State
  pub ppoll : ℕ → Call State ℕ
  -- The bytes that are received into a buffer of a size, and whether they are not all of the message.
  pub recvmsg : ℕ → ℕ → Call State (Bytes × Bool)
  pub close : ℕ → State → State

-- `Errno::AGAIN`
abbrev pub again : Errno
again = errno 11

abbrev pub zeroed : ℕ → Bytes
zeroed zero = []
zeroed (suc n) = 0 ∷ zeroed n

-- The outcome of a call is a value that is looked at.
abbrev pub as_value :
    {A : Type 0} → Outcome A SyscallError → Outcome (Result A SyscallError) Netlink
as_value (done a) = done (ok a)
as_value (failed e) = done (err e)
as_value stuck = stuck

unfoldable pub caught :
    {S A : Type 0} → Act S SyscallError A → Act S Netlink (Result A SyscallError)
caught m s = let r = m s in (as_value r.0, r.1)

-- Code that makes no call.
unfoldable pub known : {S A : Type 0} → Outcome A Netlink → Act S Netlink A
known o s = (o, s)

module _ (kernel : NetlinkKernel) (fuel : ℕ) (read_u16 read_u32 : Bytes → ℕ) where
  open kernel use {
    State, socket, interface_name_to_index, sendto_nl_kernel, start_timeout, ppoll, recvmsg, close,
  }

  abbrev pub OnSocket : Type 0 → Type 0
  OnSocket A = Act State Netlink A

  -- `send_message`
  unfoldable pub send_message : ℕ → Bytes → OnSocket (Unit {0})
  send_message fd message = do
    n ← retried syscall_error fuel (sendto_nl_kernel fd message)
    if n == length message then pure tt else fail incomplete_write

  -- What follows the bytes that were received, in the buffer.
  unfoldable pub after_message :
      ℕ → (Bytes → OnSocket (Unit {0})) → Bytes → Bytes → OnSocket (Unit {0})
  unfolding find_answer known
  after_message sequence rest buffer bytes =
      let buffer' = bytes ++ drop (length bytes) buffer in
      known (find_answer read_u16 read_u32 buffer' (length bytes) sequence) >>= λ found.
      if found then pure tt else rest buffer'

  -- The `match` on the answer of recvmsg.
  unfoldable pub after_recv :
      ℕ
      → (Bytes → OnSocket (Unit {0}))
      → Bytes
      → Result (Bytes × Bool) SyscallError
      → OnSocket (Unit {0})
  unfolding after_message
  after_recv sequence rest buffer (ok (bytes, true)) = fail truncated_message
  after_recv sequence rest buffer (ok (bytes, false)) = after_message sequence rest buffer bytes
  after_recv sequence rest buffer (err e) =
      if e.error.encoded == again.encoded then rest buffer else fail (syscall_error e)

  -- A round of `loop`, behind the poll.
  unfoldable pub after_poll :
      ℕ → ℕ → (Bytes → OnSocket (Unit {0})) → Bytes → ℕ → OnSocket (Unit {0})
  unfolding after_recv caught
  after_poll fd sequence rest buffer n_ready =
      if n_ready == 0
      then fail ack_timeout
      else (caught (retry_on_interrupt fuel (recvmsg fd (length buffer)))
          >>= after_recv sequence rest buffer)

  -- `loop`
  unfoldable pub wait_for_ack : ℕ → ℕ → ℕ → Bytes → OnSocket (Unit {0})
  unfolding after_poll
  wait_for_ack zero fd sequence buffer = λ s. (stuck, s)
  wait_for_ack (suc n) fd sequence buffer =
      retried syscall_error fuel (ppoll fd)
      >>= after_poll fd sequence (wait_for_ack n fd sequence) buffer

  unfoldable pub check_for_ack : ℕ → ℕ → OnSocket (Unit {0})
  unfolding wait_for_ack
  check_for_ack fd sequence s = wait_for_ack fuel fd sequence (zeroed 1024) (start_timeout s)

  -- A socket that is dropped on every path.
  unfoldable pub and_close : {A : Type 0} → ℕ → OnSocket A → OnSocket A
  and_close fd m s = let r = m s in (r.0, close fd r.1)

  module _ (u16_bytes u32_bytes : ℕ → Bytes) where
    -- A message that is sent and acknowledged; the result is the buffer and the next number.
    unfoldable pub exchange :
        ℕ → Result (Message u16_bytes u32_bytes) Netlink → OnSocket (Message u16_bytes u32_bytes)
    unfolding send_message check_for_ack
    exchange fd message = do
      m ← lift message
      send_message fd m.message
      check_for_ack fd m.sequence
      pure m

    unfoldable pub setup_loopback : OnSocket (Unit {0})
    unfolding exchange and_close write_add_loopback_address write_bring_up_loopback_device
    setup_loopback = do
      temporary ← call syscall_error (socket inet)
      index ←
          and_close temporary (call syscall_error (interface_name_to_index temporary (codes "lo")))
      fd ← call syscall_error (socket netlink)
      and_close fd (do
        m ← exchange fd (write_add_loopback_address u16_bytes u32_bytes (zeroed 1024) index 0)
        m' ← exchange fd (write_bring_up_loopback_device u16_bytes u32_bytes m.buffer index m.next)
        pure tt)
