-- ===== src/Spawn/Protocol/Verdict.antt =====
-- What the host learns of the guest over the pipe:
-- crates/bubblebox/src/platform/linux/spawn/mod.rs.
use layer_cake.Prelude.{
  append-nil, length-append, drop-append, length-take, take-append, ℕ, ◌+◌, ◌≤◌, ◌<◌, ◌≡◌, refl, ap,
  sym, ◌∙◌, Bytes, length, ◌++◌, [], take, drop, true, none, Result, ok, err, inl, inr, arith,
}
use layer_cake.Meowix.Errors.{intr, SyscallError}
use layer_cake.Meowix.Act.{◌>>◌, Outcome, done, failed, stuck, Act, Call, is_intr}
use layer_cake.Meowix.Io.{PartialTransfer, partial, read_array}
use layer_cake.Meowix.Io.Reading.{FilledWhole, read_array-FilledWhole}
use layer_cake.Spawn.Wire.{PostSpawnGuest, PostSpawnGuestWire, to_wire, from_wire}
use layer_cake.Spawn.WireLaws.{HasErrnos, received, from_wire-to_wire}
use layer_cake.Spawn.Protocol.Sent.{messages, EndHasErrnos}
use layer_cake.Spawn.Protocol.{
  GuestEnd, setup_failed, exec_failed, exited, executed, supervised, HostError, guest_error,
  wire_size, check_message, check_exec, read_exec, host_post_clone,
}

-- What the host is to return.
abbrev pub verdict : {HookError : Type 0} → GuestEnd → Outcome (Unit {0}) (HostError HookError)
verdict (setup_failed e) = failed (guest_error (received e))
verdict (exec_failed e) = failed (guest_error (received e))
verdict _ = done tt

module _ {S : Type 0} (encode : PostSpawnGuestWire → Bytes) (decode : Bytes → PostSpawnGuestWire)
    (encode_length : (w : PostSpawnGuestWire) → length (encode w) ≡ wire_size)
    (decode-encode : (w : PostSpawnGuestWire) → decode (encode w) ≡ w) (read : ℕ → Call S Bytes)
    (remaining : S → Bytes) (pending : S → ℕ)
    (read_takes : (n : ℕ) (s : S) (bs : Bytes)
      → (read n s).0 ≡ ok bs
      → (length bs ≤ n) × (remaining s ≡ bs ++ remaining (read n s).1))
    (read_ends : (n : ℕ) (s : S) → 0 < n → (read n s).0 ≡ ok [] → remaining s ≡ [])
    (read_fails : (n : ℕ) (s : S) (e : SyscallError)
      → (read n s).0 ≡ err e
      → remaining (read n s).1 ≡ remaining s)
    (read_steady : (n : ℕ) (s : S) → pending (read n s).1 ≤ pending s)
    (read_falls : (n : ℕ) (s : S) → is_intr (read n s).0 ≡ true → pending (read n s).1 < pending s)
    (read_only_interrupted : (n : ℕ) (s : S) (e : SyscallError)
      → (read n s).0 ≡ err e
      → e.error.encoded ≡ intr.encoded)
    (fuel : ℕ) (enough : (s : S) → pending s + wire_size < fuel) where
  abbrev Filled : Bytes → Outcome Bytes PartialTransfer → S → Type 0
  Filled stream o t =
      FilledWhole read remaining pending read_takes read_ends read_fails read_steady read_falls
        stream wire_size o t

  message_of :
      (m rest stream : Bytes) (o : Outcome Bytes PartialTransfer) (t : S)
      → length m ≡ wire_size
      → stream ≡ m ++ rest
      → Filled stream o t
      → (o ≡ done m) × (remaining t ≡ rest)
  message_of m rest stream (done bs) t l e h = (
    ap done (h.0 ∙ ap (take wire_size) e ∙ take-append wire_size m rest l),
    h.2 ∙ ap (drop wire_size) e ∙ drop-append wire_size m rest l,
  )
  message_of m rest stream (failed p) t l e (inl broken) =
      let (error, same, other, (n, s, q)) = broken.3 in
      absurd (other (read_only_interrupted n s error q))
  message_of m rest stream (failed p) t l e (inr ended) =
      absurd (omega (arith, ended.0, ended.1, ap length e, length-append m rest, l))
  message_of m rest stream stuck t l e h = absurd h

  end_of :
      (stream : Bytes) (o : Outcome Bytes PartialTransfer) (t : S)
      → stream ≡ []
      → Filled stream o t
      → o ≡ failed (partial 0 none)
  end_of stream (done bs) t e h =
      absurd (omega (arith, h.1, ap length h.0, length-take wire_size stream, ap length e))
  end_of stream (failed p) t e (inl broken) =
      let (error, same, other, (n, s, q)) = broken.3 in
      absurd (other (read_only_interrupted n s error q))
  end_of stream (failed p) t e (inr ended) =
      let nothing = ended.1 ∙ ap length e in λ i. failed (partial (nothing i) (ended.3 i))
  end_of stream stuck t e h = absurd h

  read_message :
      (m rest : Bytes) (s : S)
      → length m ≡ wire_size
      → remaining s ≡ m ++ rest
      → (t : S) × (read_array read fuel wire_size s ≡ (done m, t)) × (remaining t ≡ rest)
  read_message m rest s l e =
      let filled =
        read_array-FilledWhole read remaining pending read_takes read_ends read_fails read_steady
          read_falls fuel wire_size s (enough s) in
      let (same, left) = message_of m rest (remaining s) _ _ l e filled in
      (
        (read_array read fuel wire_size s).1,
        (λ i. (same i, (read_array read fuel wire_size s).1)),
        left,
      )

  -- The success of the exec is the end of the pipe.
  read_end :
      (s : S)
      → remaining s ≡ []
      → (t : S) × (read_array read fuel wire_size s ≡ (failed (partial 0 none), t))
  read_end s e =
      let filled =
        read_array-FilledWhole read remaining pending read_takes read_ends read_fails read_steady
          read_falls fuel wire_size s (enough s) in
      let same = end_of (remaining s) _ _ e filled in
      ((read_array read fuel wire_size s).1, λ i. (same i, (read_array read fuel wire_size s).1))

  module _ {HookError : Type 0} where
    read_exec-end :
        (s : S)
        → remaining s ≡ []
        → (read_exec {HookError = HookError} decode read fuel s).0 ≡ done tt
    unfolding check_exec
    read_exec-end s e = let (t, same) = read_end s e in rw same refl

    read_exec-error :
        (e : PostSpawnGuest) (s : S)
        → HasErrnos e
        → remaining s ≡ encode (to_wire (err e))
        → (read_exec {HookError = HookError} decode read fuel s).0
          ≡ failed (guest_error (received e))
    unfolding check_exec
    read_exec-error e s h q =
        let (t, same, left) =
          read_message (encode (to_wire (err e))) [] s (encode_length (to_wire (err e)))
            (q ∙ sym (append-nil _)) in
        rw (same, decode-encode (to_wire (err e)), (from_wire-to_wire e h).0) refl

    -- The host reads a message and decodes it.
    host_reads :
        (m : Result (Unit {0}) PostSpawnGuest) (rest : Bytes) (hook : Act S HookError (Unit {0}))
        (s : S)
        → (hook s).0 ≡ done tt
        → remaining (hook s).1 ≡ encode (to_wire m) ++ rest
        → (t : S) × (remaining t ≡ rest)
          × (host_post_clone decode read fuel hook s
              ≡ (check_message (from_wire (to_wire m)) >> read_exec decode read fuel) t)
    unfolding host_post_clone
    host_reads m rest hook s d q =
        let (t, same, left) =
          read_message (encode (to_wire m)) rest (hook s).1 (encode_length (to_wire m)) q in
        (t, left, rw (d, same, decode-encode (to_wire m)) refl)

    succeeded :
        (hook : Act S HookError (Unit {0})) (s : S)
        → (hook s).0 ≡ done tt
        → remaining (hook s).1 ≡ encode (to_wire (ok tt))
        → (host_post_clone decode read fuel hook s).0 ≡ done tt
    unfolding from_wire check_exec to_wire read_array
    succeeded hook s d q =
        let (t, left, same) = host_reads (ok tt) [] hook s d (q ∙ sym (append-nil _)) in
        ap (λ r. r.0) same ∙ read_exec-end t left

    -- On a pipe whose reads answer its next bytes, none only at its end, and only fail when
    -- interrupted, and that holds what a guest has sent: with a hook that succeeds,
    -- `host_post_clone` succeeds if the guest's setup has succeeded and no error has come behind
    -- it, and fails with the guest's error if the setup or the steps before the exec have failed.
    pub host_post_clone-verdict :
        (g : GuestEnd) (hook : Act S HookError (Unit {0})) (s : S)
        → EndHasErrnos g
        → (hook s).0 ≡ done tt
        → remaining (hook s).1 ≡ messages encode g
        → (host_post_clone decode read fuel hook s).0 ≡ verdict g
    unfolding from_wire check_exec to_wire read_array
    host_post_clone-verdict (setup_failed e) hook s h d q =
        let (t, left, same) = host_reads (err e) [] hook s d (q ∙ sym (append-nil _)) in
        ap (λ r. r.0) same ∙ rw ((from_wire-to_wire e h).0) refl
    host_post_clone-verdict (exec_failed e) hook s h d q =
        let (t, left, same) = host_reads (ok tt) (encode (to_wire (err e))) hook s d q in
        ap (λ r. r.0) same ∙ read_exec-error e t h left
    host_post_clone-verdict (exited code) hook s h d q = succeeded hook s d q
    host_post_clone-verdict executed hook s h d q = succeeded hook s d q
    host_post_clone-verdict supervised hook s h d q = succeeded hook s d q
