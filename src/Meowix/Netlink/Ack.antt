-- ===== src/Meowix/Netlink/Ack.antt =====
-- The acknowledgement of a netlink message, and the set-up of the loopback device:
-- crates/meowix/src/netlink.rs. `read_u16` and `read_u32` read a number in the order of the machine
-- from the beginning of bytes. The assertions of a debug build are left out.
use layer_cake.Prelude.{
  ℕ, zero, suc, ◌+◌, ◌-◌, ◌^◌, Bool, true, false, Bytes, drop, length, ltb, leb, ◌==◌, ◌||◌, not,
  Result, ok, err, if◌then◌else◌,
}
use layer_cake.Prelude.Int.{ℤ, pos, negsuc, to_signed, to_unsigned}
use layer_cake.Meowix.Errors.{
  Netlink, malformed_header, sequence_mismatch, incorrect_size, errno_value, invalid_error,
  integer_overflow,
}
use layer_cake.Meowix.Act.{Outcome, done, failed, stuck}
use layer_cake.Meowix.Turns.{Turn, again, leave, turns}
use layer_cake.Meowix.Netlink.{next_multiple}

-- What ends the search for the answer: an acknowledgement, or the end of the message.
abbrev pub Answer : Type 0
Answer = Turn ℕ Bool Netlink

-- The `match` on the error of an answer.
abbrev pub answer : ℤ → Outcome Bool Netlink
answer (pos zero) = done true
answer (pos (suc n)) = failed (invalid_error (pos (suc n)))
answer (negsuc n) =
    if ltb n 4095
    then failed (errno_value (record { encoded = to_unsigned 16 (negsuc n) }))
    else failed (invalid_error (negsuc n))

-- The next message.
abbrev pub advance : ℕ → Result ℕ Netlink → Answer
advance offset (ok aligned) =
    if ltb (offset + aligned) (2 ^ 64)
    then again (offset + aligned)
    else leave (failed integer_overflow)
advance offset (err e) = leave (failed e)

module _ (read_u16 read_u32 : Bytes → ℕ) (buffer : Bytes) where
  abbrev pub message_length : ℕ → ℕ
  message_length offset = read_u32 (drop offset buffer)

  abbrev pub message_type : ℕ → ℕ
  message_type offset = read_u16 (drop (offset + 4) buffer)

  abbrev pub message_sequence : ℕ → ℕ
  message_sequence offset = read_u32 (drop (offset + 8) buffer)

  abbrev pub message_error : ℕ → ℤ
  message_error offset = to_signed 32 (read_u32 (drop (offset + 16) buffer))

  -- What is left of a turn once the header has been found to be good.
  unfoldable pub message_turn : ℕ → ℕ → Answer
  unfolding next_multiple
  message_turn sequence offset =
      if not (message_sequence offset == sequence)
      then leave (failed sequence_mismatch)
      else if not (message_type offset == 2)
      then advance offset (next_multiple (message_length offset))
      else if ltb (message_length offset) 36
      then leave (failed incorrect_size)
      else if leb (offset + 36) (length buffer)
      then leave (answer (message_error offset))
      else leave stuck

  -- The body of `while offset < n_read`. A read outside of the buffer is stuck.
  unfoldable pub header_turn : ℕ → ℕ → ℕ → Answer
  unfolding message_turn
  header_turn n_read sequence offset =
      if ltb (n_read - offset) 16
      then leave (failed malformed_header)
      else if not (leb (offset + 16) (length buffer))
      then leave stuck
      else if ltb (message_length offset) 16 || ltb (n_read - offset) (message_length offset)
      then leave (failed malformed_header)
      else message_turn sequence offset

  -- The loop over the messages that have been read, with what it finds.
  unfoldable pub find_answer : ℕ → ℕ → Outcome Bool Netlink
  unfolding header_turn
  find_answer n_read sequence =
      (turns (suc n_read)
        (λ offset (s : Unit {0}).
          (if ltb offset n_read then header_turn n_read sequence offset else leave (done false), s))
        0 tt).0
