-- ===== src/Meowix/Netlink/Acked.antt =====
-- `check_for_ack` of crates/meowix/src/netlink.rs comes to an end, and what it takes for an
-- acknowledgement.
use layer_cake.Prelude.{
  ℕ, zero, suc, ◌≤◌, ◌<◌, ◌≡◌, refl, ◌∙◌, Bool, true, false, Bool-cases, inl, inr, Bytes, ◌++◌,
  drop, length, length-append, length-drop, ◌==◌, ◌||◌, Result, ok, err, if◌then◌else◌, arith,
}
use layer_cake.Meowix.Errors.{Netlink, intr, SyscallError}
use layer_cake.Meowix.Act.{Outcome, done, failed, stuck, continue, is_intr}
use layer_cake.Meowix.Gives.{◌>>=◌, pure, fail}
use layer_cake.Meowix.Netlink.Parsed.{IsAck, Verdict, find_answer-Verdict}
use layer_cake.Meowix.Netlink.Setup.{
  NetlinkKernel, known, again, zeroed, OnSocket, after_message, after_recv, after_poll,
  wait_for_ack, check_for_ack,
}
use layer_cake.Meowix.Netlink.Leaves.{Leaves, bind-Leaves, retried-Leaves, caught-Leaves}

-- The program may go on behind this answer of recvmsg.
abbrev pub goes_on : {A : Type 0} → Result A SyscallError → Bool
goes_on (ok a) = true
goes_on (err e) = e.error.encoded == intr.encoded || e.error.encoded == again.encoded

goes_on_of_intr : {A : Type 0} (r : Result A SyscallError) → is_intr r ≡ true → goes_on r ≡ true
goes_on_of_intr (ok a) h = refl
goes_on_of_intr (err e) h = rw h refl

or_true : (b : Bool) → (b || true) ≡ true
or_true true = refl
or_true false = refl

-- No poll raises the measure, interrupted polls and transmissions lower it, and so do the receptions
-- behind which the program may go on, which leave no more than the buffer has room for.
pub record NetlinkSettles (kernel : NetlinkKernel) (fuel : ℕ) : Type 0 where
  pub pending : NetlinkKernel.State kernel → ℕ
  pub enough : (s : NetlinkKernel.State kernel) → pending s < fuel
  pub sendto_falls :
      (fd : ℕ) (message : Bytes) (s : NetlinkKernel.State kernel)
      → is_intr (NetlinkKernel.sendto_nl_kernel kernel fd message s).0 ≡ true
      → pending (NetlinkKernel.sendto_nl_kernel kernel fd message s).1 < pending s
  pub ppoll_keeps :
      (fd : ℕ) (s : NetlinkKernel.State kernel)
      → pending (NetlinkKernel.ppoll kernel fd s).1 ≤ pending s
  pub ppoll_falls :
      (fd : ℕ) (s : NetlinkKernel.State kernel)
      → is_intr (NetlinkKernel.ppoll kernel fd s).0 ≡ true
      → pending (NetlinkKernel.ppoll kernel fd s).1 < pending s
  pub recvmsg_falls :
      (fd size : ℕ) (s : NetlinkKernel.State kernel)
      → goes_on (NetlinkKernel.recvmsg kernel fd size s).0 ≡ true
      → pending (NetlinkKernel.recvmsg kernel fd size s).1 < pending s
  pub recvmsg_fits :
      (fd size : ℕ) (s : NetlinkKernel.State kernel) (bytes : Bytes) (truncated : Bool)
      → (NetlinkKernel.recvmsg kernel fd size s).0 ≡ ok (bytes, truncated)
      → length bytes ≤ size

module _ (kernel : NetlinkKernel) (fuel : ℕ) (read_u16 read_u32 : Bytes → ℕ)
    (k : NetlinkSettles kernel fuel) where
  open kernel use {State, start_timeout, ppoll, recvmsg}

  -- A message that was received whole has an acknowledgement of the sequence number.
  abbrev pub IsAcked : ℕ → ℕ → State → Type 0
  IsAcked fd sequence t =
      (s : State) × (bytes : Bytes) × ((recvmsg fd 1024 s).0 ≡ ok (bytes, false))
      × ((recvmsg fd 1024 s).1 ≡ t)
      × (rest : Bytes) × (offset : ℕ) × IsAck read_u16 read_u32 (bytes ++ rest) (length bytes)
          sequence offset

  module _ (fd sequence bound : ℕ)
      (rest : Bytes → OnSocket kernel fuel read_u16 read_u32 (Unit {0}))
      (h : (buffer : Bytes) (t : State)
        → length buffer ≡ 1024
        → k.pending t < bound
        → Leaves (λ _ t. IsAcked fd sequence t) (rest buffer t)) where
    after_answer :
        (bytes tail : Bytes) (s t : State) (o : Outcome Bool Netlink)
        → (recvmsg fd 1024 s).0 ≡ ok (bytes, false)
        → (recvmsg fd 1024 s).1 ≡ t
        → length (bytes ++ tail) ≡ 1024
        → k.pending t < bound
        → Verdict read_u16 read_u32 (bytes ++ tail) (length bytes) sequence o
        → Leaves
            (λ _ t. IsAcked fd sequence t)
            (continue o t (λ found. if found then pure tt else rest (bytes ++ tail)))
    unfolding pure
    after_answer bytes tail s t (done true) e w l p v = (s, bytes, e, w, tail, v.0, v.1)
    after_answer bytes tail s t (done false) e w l p v = h (bytes ++ tail) t l p
    after_answer bytes tail s t (failed x) e w l p v = tt
    after_answer bytes tail s t stuck e w l p v = v

    after_recv-Leaves :
        (buffer : Bytes) (s t : State) (r : Result (Bytes × Bool) SyscallError)
        → length buffer ≡ 1024
        → (recvmsg fd 1024 s).0 ≡ r
        → (recvmsg fd 1024 s).1 ≡ t
        → (goes_on r ≡ true → k.pending t < bound)
        → Leaves
            (λ _ t. IsAcked fd sequence t)
            (after_recv kernel fuel read_u16 read_u32 sequence rest buffer r t)
    unfolding after_recv after_message known ◌>>=◌ fail
    after_recv-Leaves buffer s t (ok (bytes, true)) l e w p = tt
    after_recv-Leaves buffer s t (ok (bytes, false)) l e w p =
        let tail = drop (length bytes) buffer in
        let fits = k.recvmsg_fits fd 1024 s bytes false e in
        let size : length (bytes ++ tail) ≡ 1024 =
          length-append bytes tail ∙ omega (arith, length-drop (length bytes) buffer, l, fits) in
        after_answer bytes tail s t _ e w size (p refl) (
          find_answer-Verdict read_u16 read_u32 (bytes ++ tail) (length bytes) sequence
            (omega (arith, size)) (omega (arith, size, fits)))
    after_recv-Leaves buffer s t (err x) l e w p =
        elim (Bool-cases (x.error.encoded == again.encoded)) [
          | inl b ↦ rw b (h buffer t l (p (rw b (or_true (x.error.encoded == intr.encoded)))))
          | inr b ↦ rw b tt
        ]

    after_poll-Leaves :
        (buffer : Bytes) (n_ready : ℕ) (t : State)
        → length buffer ≡ 1024
        → k.pending t ≤ bound
        → Leaves
            (λ _ t. IsAcked fd sequence t)
            (after_poll kernel fuel read_u16 read_u32 fd sequence rest buffer n_ready t)
    unfolding after_poll fail
    after_poll-Leaves buffer n_ready t l p = elim (Bool-cases (n_ready == 0)) [
      | inl b ↦ rw b tt
      | inr b ↦
          rw (b, l)
            (bind-Leaves
              (λ r u.
                (s : State) × ((recvmsg fd 1024 s).0 ≡ r)
                × ((recvmsg fd 1024 s).1 ≡ u)
                × (goes_on r ≡ true → k.pending u < bound))
              (λ _ t. IsAcked fd sequence t) _ _ t
              (caught-Leaves (recvmsg fd 1024) k.pending
                (λ s i. k.recvmsg_falls fd 1024 s (goes_on_of_intr (recvmsg fd 1024 s).0 i)) fuel
                k.enough _ t
                (λ s q. (s, refl, refl, λ g. omega (arith, q, p, k.recvmsg_falls fd 1024 s g))))
              (λ r u a. after_recv-Leaves buffer a.0 u r l a.1 a.2 a.3))
    ]

  wait_for_ack-Leaves :
      (n fd sequence : ℕ) (buffer : Bytes) (s : State)
      → length buffer ≡ 1024
      → k.pending s < n
      → Leaves
          (λ _ t. IsAcked fd sequence t)
          (wait_for_ack kernel fuel read_u16 read_u32 n fd sequence buffer s)
  unfolding wait_for_ack
  wait_for_ack-Leaves zero fd sequence buffer s l p = absurd (omega arith)
  wait_for_ack-Leaves (suc n) fd sequence buffer s l p =
      bind-Leaves (λ _ t. k.pending t ≤ k.pending s) (λ _ t. IsAcked fd sequence t) _ _ s
        (retried-Leaves (ppoll fd) k.pending (k.ppoll_falls fd) fuel k.enough _ _ s
          (λ t _ q _. omega (arith, q, k.ppoll_keeps fd t)))
        (λ n_ready t q.
          after_poll-Leaves fd sequence (k.pending s)
            (wait_for_ack kernel fuel read_u16 read_u32 n fd sequence)
            (λ buffer' u l' r. wait_for_ack-Leaves n fd sequence buffer' u l' (omega (arith, r, p)))
            buffer n_ready t l q)

  -- Where no poll raises a measure that is below the fuel, and interrupted polls and the
  -- receptions behind which it may go on lower it, and where no more is received than the buffer has room for: `check_for_ack` comes to
  -- an end and never reads outside of the buffer. If it succeeds, a message that was received whole
  -- has within it an error message with the sequence number and no error.
  pub check_for_ack-Leaves :
      (fd sequence : ℕ) (s : State)
      → Leaves
          (λ _ t. IsAcked fd sequence t)
          (check_for_ack kernel fuel read_u16 read_u32 fd sequence s)
  unfolding check_for_ack
  check_for_ack-Leaves fd sequence s =
      wait_for_ack-Leaves fuel fd sequence (zeroed 1024) (start_timeout s) refl
        (k.enough (start_timeout s))
