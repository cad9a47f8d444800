-- ===== src/Meowix/Netlink/Parsed.antt =====
-- The search for an answer in crates/meowix/src/netlink.rs stays in the buffer and comes to an end.
use layer_cake.Prelude.{
  ℕ, zero, suc, ◌+◌, ◌-◌, ◌*◌, ◌/◌, ◌^◌, ◌≤◌, ◌<◌, ◌≡◌, ◌≢◌, refl, Bool, true, false, Bool-cases,
  inl, inr, Bytes, length, ltb, leb, ◌==◌, if◌then◌else◌, arith,
}
use layer_cake.Prelude.Int.{ℤ, pos, negsuc}
use layer_cake.Meowix.Errors.{Netlink, integer_overflow}
use layer_cake.Meowix.Act.{Outcome, done, failed, stuck}
use layer_cake.Meowix.Turns.{After, turns_inv, leave}
use layer_cake.Meowix.Netlink.{next_multiple}
use layer_cake.Meowix.Netlink.Ack.{
  Answer, answer, advance, message_length, message_type, message_sequence, message_error,
  message_turn, header_turn, find_answer,
}

module _ (read_u16 read_u32 : Bytes → ℕ) (buffer : Bytes) (n_read sequence : ℕ) where
  -- At the offset there is an error message in answer to the sequence number, within what was
  -- read, that reports no error.
  pub record IsAck (offset : ℕ) : Type 0 where
    pub within : offset + 36 ≤ n_read
    pub same_sequence : message_sequence read_u16 read_u32 buffer offset ≡ sequence
    pub is_error : message_type read_u16 read_u32 buffer offset ≡ 2
    pub no_error : message_error read_u16 read_u32 buffer offset ≡ pos 0

  abbrev pub Verdict : Outcome Bool Netlink → Type 0
  Verdict (done true) = (offset : ℕ) × IsAck offset
  Verdict (done false) = Unit
  Verdict (failed e) = e ≢ integer_overflow
  Verdict stuck = ⊥

  module _ (small : length buffer < 2 ^ 63) (read : n_read ≤ length buffer) {S : Type 0}
      (t : S) where
    abbrev Step : ℕ → Answer → Type 0
    Step bound turn =
        After (λ _ (_ : S). Unit {0}) (λ o _. Verdict o) (λ offset _. n_read - offset) bound turn t

    answer-Verdict :
        (offset : ℕ) (z : ℤ)
        → message_error read_u16 read_u32 buffer offset ≡ z
        → (z ≡ pos 0 → IsAck offset)
        → Verdict (answer z)
    answer-Verdict offset (pos zero) e h = (offset, h refl)
    answer-Verdict offset (pos (suc n)) e h = λ q. cc
    answer-Verdict offset (negsuc n) e h = elim (Bool-cases (ltb n 4095)) [
      | inl b ↦ rw b (λ q. cc)
      | inr b ↦ rw b (λ q. cc)
    ]

    advance-Step :
        (offset n : ℕ)
        → offset < n_read
        → 16 ≤ n
        → n ≤ n_read - offset
        → Step (n_read - offset) (advance offset (next_multiple n))
    unfolding next_multiple
    advance-Step offset n l m r =
        let fits : ltb ((n + 3) / 4 * 4) (2 ^ 64) ≡ true = ground (arith, r, read, small) in
        let ahead : ltb (offset + (n + 3) / 4 * 4) (2 ^ 64) ≡ true =
          ground (arith, l, r, read, small) in
        rw (fits, ahead) (tt, omega (arith, l, m))

    message_turn-Step :
        (offset : ℕ)
        → offset < n_read
        → 16 ≤ message_length read_u16 read_u32 buffer offset
        → message_length read_u16 read_u32 buffer offset ≤ n_read - offset
        → Step (n_read - offset) (message_turn read_u16 read_u32 buffer sequence offset)
    unfolding message_turn
    message_turn-Step offset l m r =
        elim (Bool-cases (message_sequence read_u16 read_u32 buffer offset == sequence)) [
          | inr s ↦ rw s (λ q. cc)
          | inl s ↦ elim (Bool-cases (message_type read_u16 read_u32 buffer offset == 2)) [
            | inr k ↦ rw (s, k) (advance-Step offset _ l m r)
            | inl k ↦ elim (Bool-cases (ltb (message_length read_u16 read_u32 buffer offset) 36)) [
              | inl w ↦ rw (s, k, w) (λ q. cc)
              | inr w ↦
                  let inside : offset + 36 ≤ n_read = ground (arith, w, r) in
                  let fits : leb (offset + 36) (length buffer) ≡ true =
                    ground (arith, inside, read) in
                  rw (s, k, w, fits)
                    (answer-Verdict offset _ refl (λ z. record {
                      within = inside;
                      same_sequence = ground (arith, s);
                      is_error = ground (arith, k);
                      no_error = z;
                    }))
            ]
          ]
        ]

    header_turn-Step :
        (offset : ℕ)
        → offset < n_read
        → Step (n_read - offset) (header_turn read_u16 read_u32 buffer n_read sequence offset)
    unfolding header_turn
    header_turn-Step offset l = elim (Bool-cases (ltb (n_read - offset) 16)) [
      | inl a ↦ rw a (λ q. cc)
      | inr a ↦
          let fits : leb (offset + 16) (length buffer) ≡ true = ground (arith, a, read) in
          elim (Bool-cases (ltb (message_length read_u16 read_u32 buffer offset) 16)) [
            | inl b ↦ rw (a, fits, b) (λ q. cc)
            | inr b ↦
                elim (Bool-cases
                  (ltb (n_read - offset) (message_length read_u16 read_u32 buffer offset))) [
                    | inl c ↦ rw (a, fits, b, c) (λ q. cc)
                    | inr c ↦
                        rw (a, fits, b, c)
                          (message_turn-Step offset l (ground (arith, b)) (ground (arith, c)))
                  ]
          ]
    ]

  module _ (small : length buffer < 2 ^ 63) (read : n_read ≤ length buffer) where
    turn-Step :
        {S : Type 0} (offset : ℕ) (t : S)
        → Step small read t (n_read - offset) (
            if ltb offset n_read
            then header_turn read_u16 read_u32 buffer n_read sequence offset
            else leave (done false))
    turn-Step offset t = elim (Bool-cases (ltb offset n_read)) [
      | inl e ↦ rw e (header_turn-Step small read t offset (ground (arith, e)))
      | inr e ↦ rw e tt
    ]

    -- Where a message of no more than the buffer's bytes was read, and the buffer is not longer than
    -- an allocation may be, the search for an answer never reads outside of the buffer, comes to an
    -- end, and never overflows an integer. It takes a message for acknowledged only if within what
    -- was read there is an error message with the sequence number that is expected and no error.
    pub find_answer-Verdict : Verdict (find_answer read_u16 read_u32 buffer n_read sequence)
    unfolding find_answer
    find_answer-Verdict =
        turns_inv (λ _ _. Unit) (λ o _. Verdict o) (λ offset _. n_read - offset) _
          (λ offset t _. turn-Step offset t) (suc n_read) 0 tt tt (omega arith)
