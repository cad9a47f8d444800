-- ===== src/Spawn/Protocol/Sent.antt =====
-- What the guest sends to the host over the pipe:
-- crates/bubblebox/src/platform/linux/spawn/mod.rs.
use layer_cake.Prelude.{
  append_assoc, ℕ, ◌+◌, ◌≤◌, ◌<◌, ◌≡◌, ◌≢◌, refl, ap, ◌∙◌, Bytes, length, ◌++◌, take, true, Option,
  none, some, Result, ok, err, arith,
}
use layer_cake.Meowix.Errors.{intr, SyscallError}
use layer_cake.Meowix.Act.{Outcome, done, failed, stuck, Act, Call, is_intr}
use layer_cake.Meowix.Io.{PartialTransfer}
use layer_cake.Meowix.Io.Writing.{WrittenWhole, Cause, write_all-WrittenWhole}
use layer_cake.Spawn.Wire.{PostSpawnGuest, PostSpawnGuestWire, to_wire}
use layer_cake.Spawn.WireLaws.{HasErrnos}
use layer_cake.Spawn.Protocol.{
  SpawnAction, exit, exec, supervisor, GuestEnd, setup_failed, exec_failed, exited, executed,
  supervised, wire_size, send, after_exec, act, after_setup, guest_process,
}

-- What the guest has sent when it ends.
abbrev pub messages : (PostSpawnGuestWire → Bytes) → GuestEnd → Bytes
messages encode (setup_failed e) = encode (to_wire (err e))
messages encode (exec_failed e) = encode (to_wire (ok tt)) ++ encode (to_wire (err e))
messages encode _ = encode (to_wire (ok tt))

abbrev pub EndHasErrnos : GuestEnd → Type 0
EndHasErrnos (setup_failed e) = HasErrnos e
EndHasErrnos (exec_failed e) = HasErrnos e
EndHasErrnos _ = Unit

module _ {S : Type 0} (encode : PostSpawnGuestWire → Bytes)
    (encode_length : (w : PostSpawnGuestWire) → length (encode w) ≡ wire_size)
    (write : Bytes → Call S ℕ) (taken : S → Bytes) (pending : S → ℕ)
    (write_takes : (value : Bytes) (s : S) (n : ℕ)
      → (write value s).0 ≡ ok n
      → (n ≤ length value) × (taken (write value s).1 ≡ taken s ++ take n value))
    (write_fails : (value : Bytes) (s : S) (e : SyscallError)
      → (write value s).0 ≡ err e
      → taken (write value s).1 ≡ taken s)
    (write_steady : (value : Bytes) (s : S) → pending (write value s).1 ≤ pending s)
    (write_falls : (value : Bytes) (s : S)
      → is_intr (write value s).0 ≡ true
      → pending (write value s).1 < pending s)
    (write_some : (value : Bytes) (s : S) → 0 < length value → (write value s).0 ≢ ok 0)
    (write_only_interrupted : (value : Bytes) (s : S) (e : SyscallError)
      → (write value s).0 ≡ err e
      → e.error.encoded ≡ intr.encoded)
    (fuel : ℕ) (enough : (s : S) → pending s + wire_size < fuel) where
  abbrev Whole : Bytes → Bytes → Outcome (Unit {0}) PartialTransfer → S → Type 0
  Whole before buf o t =
      WrittenWhole write taken pending write_takes write_fails write_steady write_falls before buf o
        t

  no-Cause :
      (o : Option SyscallError)
      → ¬ Cause write taken pending write_takes write_fails write_steady write_falls o
  no-Cause none (value, s, some_bytes, q) = write_some value s some_bytes q
  no-Cause (some e) (other, (value, s, q)) = other (write_only_interrupted value s e q)

  sent :
      (buf : Bytes) (s : S) (o : Outcome (Unit {0}) PartialTransfer) (t : S)
      (next : S → Outcome GuestEnd (Unit {0}) × S)
      → Whole (taken s) buf o t
      → ((elim o [ stuck ↦ (stuck, t) | _ ↦ next t ]) ≡ next t) × (taken t ≡ taken s ++ buf)
  sent buf s (done _) t next h = (refl, h)
  sent buf s (failed p) t next h = absurd (no-Cause p.error h.2)
  sent buf s stuck t next h = absurd h

  -- A message is sent whole.
  send_lem :
      (m : Result (Unit {0}) PostSpawnGuest) (s : S) (next : S → Outcome GuestEnd (Unit {0}) × S)
      → (t : S) × (send encode write fuel m s next ≡ next t)
        × (taken t ≡ taken s ++ encode (to_wire m))
  unfolding send
  send_lem m s next =
      let short = enough s in
      let whole =
        write_all-WrittenWhole write taken pending write_takes write_fails write_steady write_falls
          fuel (encode (to_wire m)) s (omega (arith, encode_length (to_wire m), short)) in
      let (same, all) = sent (encode (to_wire m)) s _ _ next whole in (_, same, all)

  -- The guest has come to an end with a property, and what it has sent since.
  abbrev pub Ended : (GuestEnd → Type 0) → Bytes → Outcome GuestEnd (Unit {0}) × S → Type 0
  Ended IsEnd before r =
      (g : GuestEnd) × IsEnd g
      × (r.0 ≡ done g)
      × (taken r.1 ≡ before ++ messages encode g)
      × EndHasErrnos g

  -- A message, and then what follows it.
  send-Ended :
      (IsEnd : GuestEnd → Type 0) (m : Result (Unit {0}) PostSpawnGuest) (s : S)
      (next : S → Outcome GuestEnd (Unit {0}) × S) (before : Bytes)
      → ((t : S) → taken t ≡ taken s ++ encode (to_wire m) → Ended IsEnd before (next t))
      → Ended IsEnd before (send encode write fuel m s next)
  send-Ended IsEnd m s next before k = let (t, same, all) = send_lem m s next in rw same (k t all)

  module _ (exec_steps : Act S PostSpawnGuest (Unit {0}))
      (exec_keeps : (s : S) → taken (exec_steps s).1 ≡ taken s)
      (exec_ends : (s : S) → (exec_steps s).0 ≢ stuck)
      (exec_errnos : (s : S) (e : PostSpawnGuest) → (exec_steps s).0 ≡ failed e → HasErrnos e) where
    -- The end that the outcome of the steps before the exec calls for.
    abbrev IsExecEnd : Outcome (Unit {0}) PostSpawnGuest → GuestEnd → Type 0
    IsExecEnd (done _) g = g ≡ executed
    IsExecEnd (failed e) g = g ≡ exec_failed e
    IsExecEnd stuck g = ⊥

    -- The end that the outcome of the setup calls for: with its error, or by its action, where the
    -- steps before the exec run once the success of the setup has been sent.
    abbrev pub IsEndOf : Bytes → Outcome SpawnAction PostSpawnGuest → GuestEnd → Type 0
    IsEndOf before (failed e) g = g ≡ setup_failed e
    IsEndOf before (done (exit code)) g = g ≡ exited code
    IsEndOf before (done supervisor) g = g ≡ supervised
    IsEndOf before (done exec) g =
        (t : S) × (taken t ≡ before ++ encode (to_wire (ok tt))) × IsExecEnd (exec_steps t).0 g
    IsEndOf before stuck g = ⊥

    after_exec-Ended :
        (before : Bytes) (s : S) (o : Outcome (Unit {0}) PostSpawnGuest) (t : S)
        → (exec_steps s).0 ≡ o
        → taken t ≡ before ++ encode (to_wire (ok tt))
        → Ended (IsExecEnd o) before (after_exec encode write fuel o t)
    after_exec-Ended before s (done _) t q h = (executed, refl, refl, h, tt)
    after_exec-Ended before s (failed e) t q h =
        send-Ended (IsExecEnd (failed e)) (err e) t _ before (λ u w. (
          exec_failed e,
          refl,
          refl,
          w ∙ ap (λ x. x ++ encode (to_wire (err e))) h ∙ append_assoc before _ _,
          exec_errnos s e q,
        ))
    after_exec-Ended before s stuck t q h = absurd (exec_ends s q)

    act-Ended :
        (before : Bytes) (a : SpawnAction) (s : S)
        → taken s ≡ before ++ encode (to_wire (ok tt))
        → Ended (IsEndOf before (done a)) before (act encode write fuel exec_steps a s)
    act-Ended before (exit code) s h = (exited code, refl, refl, h, tt)
    act-Ended before exec s h =
        let (g, is_end, ended, sent_all, errnos) =
          after_exec-Ended before s _ _ refl (exec_keeps s ∙ h) in
        (g, (s, h, is_end), ended, sent_all, errnos)
    act-Ended before supervisor s h = (supervised, refl, refl, h, tt)

    after_setup-Ended :
        (o : Outcome SpawnAction PostSpawnGuest) (s : S)
        → o ≢ stuck
        → ((e : PostSpawnGuest) → o ≡ failed e → HasErrnos e)
        → Ended (IsEndOf (taken s) o) (taken s) (after_setup encode write fuel exec_steps o s)
    after_setup-Ended (done a) s n h =
        send-Ended _ (ok tt) s _ (taken s) (λ t w. act-Ended (taken s) a t w)
    after_setup-Ended (failed e) s n h =
        send-Ended _ (err e) s _ (taken s) (λ t w. (setup_failed e, refl, refl, w, h e refl))
    after_setup-Ended stuck s n h = absurd (n refl)

    -- On a pipe whose writes take the first bytes of what they are given, at least one, and only
    -- fail when interrupted: a guest whose setup and last steps come to an end, fail with error
    -- numbers in range and do not write to the pipe comes to an end. If its setup fails, it ends with
    -- that error and has sent it. Else it has sent the success and ends by the action of the setup:
    -- with the code of an exit, as a supervisor, or by the exec, where the steps before it ran behind
    -- the message; if they fail, it ends with their error and has sent it behind the success.
    pub guest_process-Ended :
        (setup : Act S PostSpawnGuest SpawnAction) (s : S)
        → taken (setup s).1 ≡ taken s
        → (setup s).0 ≢ stuck
        → ((e : PostSpawnGuest) → (setup s).0 ≡ failed e → HasErrnos e)
        → Ended
            (IsEndOf (taken s) (setup s).0)
            (taken s)
            (guest_process encode write fuel setup exec_steps s)
    unfolding guest_process
    guest_process-Ended setup s k n h = rw k at (after_setup-Ended (setup s).0 (setup s).1 n h)
