-- ===== src/Meowix/Netlink/Loopback.antt =====
-- `setup_loopback` of crates/meowix/src/netlink.rs, as a whole.
use layer_cake.Prelude.{
  ℕ, ◌≡◌, refl, ap, sym, ◌∙◌, Bytes, length, ◌==◌, Bool-cases, inl, inr, Result, ok, arith,
}
use layer_cake.Prelude.Text.{codes}
use layer_cake.Meowix.Errors.{Netlink, syscall_error}
use layer_cake.Meowix.Act.{Outcome, done, failed, stuck}
use layer_cake.Meowix.Gives.{◌>>=◌, pure, fail, call}
use layer_cake.Meowix.Netlink.{Message, write_add_loopback_address, write_bring_up_loopback_device}
use layer_cake.Meowix.Netlink.Setup.{
  NetlinkKernel, OnSocket, inet, netlink, zeroed, send_message, check_for_ack, and_close, exchange,
  setup_loopback,
}
use layer_cake.Meowix.Netlink.Leaves.{
  Leaves, Leaves-run, weaken-Leaves, lift-Leaves, call-Leaves, bind-Leaves, retried-Leaves,
}
use layer_cake.Meowix.Netlink.Acked.{NetlinkSettles, IsAcked, check_for_ack-Leaves}

module _ (kernel : NetlinkKernel) (fuel : ℕ) (read_u16 read_u32 : Bytes → ℕ)
    (k : NetlinkSettles kernel fuel) where
  open kernel use {State, socket, interface_name_to_index, sendto_nl_kernel, close}

  -- A call has taken the whole message, and has left this state.
  abbrev pub Sent : ℕ → Bytes → State → Type 0
  Sent fd message t =
      (s : State) × ((sendto_nl_kernel fd message s).0 ≡ ok (length message))
      × ((sendto_nl_kernel fd message s).1 ≡ t)

  send_message-Sent :
      (fd : ℕ) (message : Bytes) (s : State)
      → Leaves (λ _ t. Sent fd message t) (send_message kernel fuel read_u16 read_u32 fd message s)
  unfolding send_message pure fail
  send_message-Sent fd message s =
      bind-Leaves
        (λ n t.
          (u : State) × ((sendto_nl_kernel fd message u).0 ≡ ok n)
          × ((sendto_nl_kernel fd message u).1 ≡ t))
        (λ _ t. Sent fd message t) _ _ s
        (retried-Leaves (sendto_nl_kernel fd message) k.pending (k.sendto_falls fd message) fuel
          k.enough _ _ s (λ t a _ e. (t, e, refl)))
        (λ n t a. elim (Bool-cases (n == length message)) [
          | inl e ↦ let same : n ≡ length message = ground (arith, e) in rw e (rw same at a)
          | inr e ↦ rw e tt
        ])

  closed :
      {A : Type 0} (Q : A → State → Type 0) (fd : ℕ) (r : Outcome A Netlink × State)
      → Leaves Q r
      → Leaves (λ a t. (u : State) × (t ≡ close fd u) × Q a u) (r.0, close fd r.1)
  closed Q fd (done a, t) h = (t, refl, h)
  closed Q fd (failed e, t) h = tt
  closed Q fd (stuck, t) h = h

  and_close-Leaves :
      {A : Type 0} (Q : A → State → Type 0) (fd : ℕ) (m : OnSocket kernel fuel read_u16 read_u32 A)
      (s : State)
      → Leaves Q (m s)
      → Leaves
          (λ a t. (u : State) × (t ≡ close fd u) × Q a u)
          (and_close kernel fuel read_u16 read_u32 fd m s)
  unfolding and_close
  and_close-Leaves Q fd m s h = closed Q fd (m s) h

  module _ (u16_bytes u32_bytes : ℕ → Bytes) where
    -- A message that was built has been sent whole in a run of `send_message` from one state, which
    -- a call that took all of it has ended, and then acknowledged in a run of `check_for_ack` from
    -- the state behind that call, which the reception of the acknowledgement has ended.
    abbrev pub IsDone :
        ℕ
        → Result (Message u16_bytes u32_bytes) Netlink
        → State
        → Message u16_bytes u32_bytes
        → State
        → Type 0
    IsDone fd built s m t =
        (built ≡ ok m)
        × ((u : State) × (send_message kernel fuel read_u16 read_u32 fd m.message s ≡ (done tt, u))
            × Sent fd m.message u
            × (check_for_ack kernel fuel read_u16 read_u32 fd m.sequence u ≡ (done tt, t))
            × IsAcked kernel fuel read_u16 read_u32 k fd m.sequence t)

    exchange-IsDone :
        (fd : ℕ) (built : Result (Message u16_bytes u32_bytes) Netlink) (s : State)
        → Leaves
            (IsDone fd built s)
            (exchange kernel fuel read_u16 read_u32 u16_bytes u32_bytes fd built s)
    unfolding exchange pure
    exchange-IsDone fd built s =
        bind-Leaves (λ m t. (built ≡ ok m) × (s ≡ t)) (IsDone fd built s) _ _ s
          (lift-Leaves built s)
          (λ m t (e, start).
            bind-Leaves
              (λ _ u.
                Sent fd m.message u
                × (send_message kernel fuel read_u16 read_u32 fd m.message t ≡ (done tt, u)))
              (IsDone fd built s) _ _ t (Leaves-run _ _ (send_message-Sent fd m.message t))
              (λ _ u sent.
                bind-Leaves
                  (λ _ v.
                    IsAcked kernel fuel read_u16 read_u32 k fd m.sequence v
                    × (check_for_ack kernel fuel read_u16 read_u32 fd m.sequence u ≡ (done tt, v)))
                  (IsDone fd built s) _ _ u
                  (Leaves-run _ _
                    (check_for_ack-Leaves kernel fuel read_u16 read_u32 k fd m.sequence u))
                  (λ _ v acked. (e, (u, rw (sym start) at sent.1, sent.0, acked.1, acked.0)))))

    -- The messages for the interface of an index.
    abbrev add_address : ℕ → Result (Message u16_bytes u32_bytes) Netlink
    add_address index = write_add_loopback_address u16_bytes u32_bytes (zeroed 1024) index 0

    abbrev bring_up : ℕ → Message u16_bytes u32_bytes → Result (Message u16_bytes u32_bytes) Netlink
    bring_up index m = write_bring_up_loopback_device u16_bytes u32_bytes m.buffer index m.next

    -- Both messages have been exchanged, the second from the state behind the first.
    abbrev pub AreDone : ℕ → ℕ → State → State → Type 0
    AreDone fd index s u =
        (m : Message u16_bytes u32_bytes) × (t : State) × IsDone fd (add_address index) s m t
        × ((m' : Message u16_bytes u32_bytes) × IsDone fd (bring_up index m) t m' u)

    -- What has been done for the interface `lo`, from one state to another: its index asked for over
    -- a socket that was closed, and both messages exchanged over another.
    abbrev pub IsUp : State → State → Type 0
    IsUp s t =
        (temporary index fd : ℕ) × (a b c d : State) × (socket inet s ≡ (ok temporary, a))
        × (interface_name_to_index temporary (codes "lo") a ≡ (ok index, b))
        × (socket netlink (close temporary b) ≡ (ok fd, c))
        × AreDone fd index c d
        × (t ≡ close fd d)

    abbrev messages : ℕ → ℕ → OnSocket kernel fuel read_u16 read_u32 (Unit {0})
    messages fd index =
        exchange kernel fuel read_u16 read_u32 u16_bytes u32_bytes fd (add_address index) >>= λ m.
        exchange kernel fuel read_u16 read_u32 u16_bytes u32_bytes fd (bring_up index m) >>= λ _.
        pure tt

    messages-AreDone :
        (fd index : ℕ) (s : State) → Leaves (λ _ t. AreDone fd index s t) (messages fd index s)
    unfolding pure
    messages-AreDone fd index s =
        bind-Leaves (IsDone fd (add_address index) s) (λ _ t. AreDone fd index s t) _ _ s
          (exchange-IsDone fd (add_address index) s)
          (λ m t first.
            bind-Leaves (IsDone fd (bring_up index m) t) (λ _ t. AreDone fd index s t) _ _ t
              (exchange-IsDone fd (bring_up index m) t)
              (λ m' u second. (m, t, first, (m', second))))

    -- Where the kernel comes to an end of its interruptions and messages, `setup_loopback` does so
    -- too. If it succeeds, it has asked for the index of the interface `lo` over a socket and closed
    -- it, and then, over a netlink socket, has sent in one call the message that adds the address to
    -- that interface, then received its acknowledgement, then sent in one call the message that
    -- brings the interface up, with the next sequence number, and then received its acknowledgement;
    -- each step from the state that the one before it left. Last it has closed that socket.
    pub setup_loopback-IsUp :
        (s : State)
        → Leaves
            (λ _ t. IsUp s t)
            (setup_loopback kernel fuel read_u16 read_u32 u16_bytes u32_bytes s)
    unfolding setup_loopback pure
    setup_loopback-IsUp s =
        bind-Leaves (λ n a. socket inet s ≡ (ok n, a)) (λ _ t. IsUp s t) _ _ s (call-Leaves _ _ s)
          (λ temporary a opened.
            bind-Leaves
              (λ i t.
                (b : State) × (t ≡ close temporary b)
                × (interface_name_to_index temporary (codes "lo") a ≡ (ok i, b)))
              (λ _ t. IsUp s t) _ _ a
              (and_close-Leaves _ temporary
                (call syscall_error (interface_name_to_index temporary (codes "lo"))) a
                (call-Leaves syscall_error (interface_name_to_index temporary (codes "lo")) a))
              (λ index t (b, same, known).
                bind-Leaves (λ n c. socket netlink t ≡ (ok n, c)) (λ _ t. IsUp s t) _ _ t
                  (call-Leaves _ _ t)
                  (λ fd c opened'.
                    weaken-Leaves (λ _ t. (d : State) × (t ≡ close fd d) × AreDone fd index c d)
                      (λ _ t. IsUp s t) _
                      (and_close-Leaves (λ _ d. AreDone fd index c d) fd (messages fd index) c
                        (messages-AreDone fd index c))
                      (λ _ v (d, last, both). (
                        temporary,
                        index,
                        fd,
                        a,
                        b,
                        c,
                        d,
                        opened,
                        known,
                        ap (λ u. socket netlink u) (sym same) ∙ opened',
                        both,
                        last,
                      )))))
