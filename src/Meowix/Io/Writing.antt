-- ===== src/Meowix/Io/Writing.antt =====
-- What the repeated writes of crates/meowix/src/util.rs write, against a sink: the bytes that it
-- has taken.
use layer_cake.Prelude.{
  ◌⊎◌, take_all, take_add, append_assoc, length-drop, append-nil, ℕ, ◌+◌, ◌-◌, ◌≤◌, ◌<◌, ◌≡◌, ◌≢◌,
  refl, ap, sym, ◌∙◌, Bytes, length, take, drop, ◌++◌, true, some, none, ltb, ltb→lt, if◌then◌else◌,
  ◌==◌, Bool-cases, inl, inr, ok, err, Result, arith,
}
use layer_cake.Meowix.Errors.{intr, SyscallError}
use layer_cake.Meowix.Act.{pure, fail, continue, Outcome, done, failed, stuck, Call, is_intr}
use layer_cake.Meowix.Turns.{After, turns_inv}
use layer_cake.Meowix.Io.{
  Option, false, PartialTransfer, partial, after_write, write_turn, write_until_stalled, write_all,
}

module _ {S : Type 0} (write : Bytes → Call S ℕ) (taken : S → Bytes) (pending : S → ℕ)
    (write_takes : (value : Bytes) (s : S) (n : ℕ)
      → (write value s).0 ≡ ok n
      → (n ≤ length value) × (taken (write value s).1 ≡ taken s ++ take n value))
    (write_fails : (value : Bytes) (s : S) (e : SyscallError)
      → (write value s).0 ≡ err e
      → taken (write value s).1 ≡ taken s)
    (write_steady : (value : Bytes) (s : S) → pending (write value s).1 ≤ pending s)
    (write_falls : (value : Bytes) (s : S)
      → is_intr (write value s).0 ≡ true
      → pending (write value s).1 < pending s) where
  -- The sink has taken the first `n` bytes of the buffer after what it had.
  abbrev Taken : Bytes → Bytes → ℕ → S → Type 0
  Taken before buf n t = (n ≤ length buf) × (taken t ≡ before ++ take n buf)

  -- A write that was answered 0 or with an error other than EINTR.
  abbrev Stalled : Type 0
  Stalled = (value : Bytes) × (s : S) × (0 < length value) × ((write value s).0 ≡ ok 0)

  abbrev Refused : SyscallError → Type 0
  Refused e =
      (e.error.encoded ≢ intr.encoded) × ((value : Bytes) × (s : S) × ((write value s).0 ≡ err e))

  -- Why the code stopped.
  abbrev pub Cause : Option SyscallError → Type 0
  Cause none = Stalled
  Cause (some e) = Refused e

  abbrev Failed : Bytes → Bytes → PartialTransfer → S → Type 0
  Failed before buf p t =
      (p.transferred < length buf) × Taken before buf p.transferred t × Cause p.error

  abbrev pub Written : Bytes → Bytes → Outcome ℕ PartialTransfer → S → Type 0
  Written before buf (done n) t = Taken before buf n t × ((n ≡ length buf) ⊎ Stalled)
  Written before buf (failed p) t = Failed before buf p t
  Written before buf stuck t = ⊥

  abbrev pub WrittenWhole : Bytes → Bytes → Outcome (Unit {0}) PartialTransfer → S → Type 0
  WrittenWhole before buf (done _) t = taken t ≡ before ++ buf
  WrittenWhole before buf (failed p) t = Failed before buf p t
  WrittenWhole before buf stuck t = ⊥

  abbrev left : Bytes → ℕ → S → ℕ
  left buf i t = pending t + (length buf - i)

  write_step :
      (before buf : Bytes) (i : ℕ) (s : S) (r : Result ℕ SyscallError) (t : S)
      → Taken before buf i s
      → i < length buf
      → (write (drop i buf) s).0 ≡ r
      → (write (drop i buf) s).1 ≡ t
      → After (Taken before buf) (Written before buf) (left buf) (left buf i s) (after_write i r) t
  write_step before buf i s (ok n) t h l e q =
      let (short, same) = rw q at (write_takes (drop i buf) s n e) in
      let steady = rw q at (write_steady (drop i buf) s) in
      elim (Bool-cases (n == 0)) [
        | inl z ↦ rw z (
            let nothing : n ≡ 0 = ground (arith, z) in
            (
              (
                h.0,
                same
                    ∙ ap (λ k. taken s ++ take k (drop i buf)) nothing
                    ∙ append-nil (taken s)
                    ∙ h.1,
              ),
              inr (drop i buf, s, omega (arith, l, length-drop i buf), e ∙ ap ok nothing),
            ))
        | inr z ↦ rw z (
            let room = length-drop i buf in
            (
              (
                omega (arith, short, room, l),
                same
                    ∙ ap (λ x. x ++ take n (drop i buf)) h.1
                    ∙ append_assoc before (take i buf) (take n (drop i buf))
                    ∙ ap (λ x. before ++ x) (sym (take_add i n buf)),
              ),
              ground (arith, z, short, room, l, steady),
            ))
      ]
  write_step before buf i s (err x) t h l e q =
      let same = rw q at (write_fails (drop i buf) s x e) in
      elim (Bool-cases (x.error.encoded == intr.encoded)) [
        | inl z ↦
            rw z ((h.0, same ∙ h.1), omega (arith, rw q at (write_falls (drop i buf) s (rw e z))))
        | inr z ↦ rw z (l, (h.0, same ∙ h.1), ((λ m. ground (arith, z, m)), (drop i buf, s, e)))
      ]

  -- With fuel for the interrupted writes and the bytes of the buffer, to a sink whose writes take
  -- the first bytes of what they are given and whose failed writes take nothing:
  -- `write_until_stalled` ends, and whether it returns or fails, the sink has taken as many bytes
  -- from the beginning of the buffer as are counted. If it returns less than the whole buffer, a
  -- write was answered 0; if it fails, that is not the whole buffer, and a write had an error other
  -- than EINTR, which is passed on.
  pub write_until_stalled-Written :
      (fuel : ℕ) (buf : Bytes) (s : S)
      → pending s + length buf < fuel
      → Written
          (taken s)
          buf
          (write_until_stalled write fuel buf s).0
          (write_until_stalled write fuel buf s).1
  unfolding write_until_stalled
  write_until_stalled-Written fuel buf s m =
      turns_inv (Taken (taken s) buf) (Written (taken s) buf) (left buf) (write_turn write buf)
        (λ i t h. elim (Bool-cases (ltb i (length buf))) [
          | inl l ↦ rw l (write_step (taken s) buf i t _ _ h (ltb→lt i (length buf) l) refl refl)
          | inr l ↦ rw l (h, inl (ground (arith, l, h.0)))
        ])
        fuel 0 s (omega arith, sym (append-nil (taken s))) (omega (arith, m))

  all_after :
      (before buf : Bytes) (o : Outcome ℕ PartialTransfer) (t : S)
      → Written before buf o t
      → WrittenWhole before buf
          (continue o t (λ n. if ltb n (length buf) then fail (partial n none) else pure tt)).0
          (continue o t (λ n. if ltb n (length buf) then fail (partial n none) else pure tt)).1
  all_after before buf (done n) t (h, inr stalled) = elim (Bool-cases (ltb n (length buf))) [
    | inl l ↦ rw l (ltb→lt n (length buf) l, h, stalled)
    | inr l ↦ rw l (h.1 ∙ ap (λ x. before ++ x) (take_all n buf (ground (arith, l))))
  ]
  all_after before buf (done n) t (h, inl whole) =
      let full : ltb n (length buf) ≡ false = ground (arith, whole) in
      rw full (h.1 ∙ ap (λ x. before ++ x) (take_all n buf (omega (arith, whole))))
  all_after before buf (failed p) t h = h
  all_after before buf stuck t h = h

  -- Under the same conditions `write_all` ends: if it succeeds, the sink has taken the whole
  -- buffer; and if it fails, only the part of it that the error counts, which is not the whole, and
  -- a write was answered 0 or with the error that is passed on.
  pub write_all-WrittenWhole :
      (fuel : ℕ) (buf : Bytes) (s : S)
      → pending s + length buf < fuel
      → WrittenWhole (taken s) buf (write_all write fuel buf s).0 (write_all write fuel buf s).1
  unfolding write_all
  write_all-WrittenWhole fuel buf s m =
      all_after (taken s) buf _ _ (write_until_stalled-Written fuel buf s m)
