-- ===== src/Meowix/Io/Reading.antt =====
-- What the repeated reads of crates/meowix/src/util.rs read, against a stream: the bytes that
-- remain to be read.
use layer_cake.Prelude.{
  drop_all, append-nil, take_all, append_assoc, length-append, drop-append, ltb→lt, take-append, ap,
  ◌∙◌, sym, ◌≢◌, ◌⊎◌, ℕ, ◌+◌, ◌-◌, ◌≤◌, ◌<◌, ◌≡◌, refl, Bytes, length, take, drop, ◌++◌, [], ◌∷◌,
  true, none, some, ltb, ◌==◌, Bool-cases, inl, inr, Result, ok, err, arith,
}
use layer_cake.Meowix.Errors.{intr, SyscallError}
use layer_cake.Meowix.Act.{Outcome, done, failed, stuck, Call, is_intr}
use layer_cake.Meowix.Turns.{After, turns_inv}
use layer_cake.Meowix.Io.{
  partial, turns, PartialTransfer, after_read, break_at_end, fail_at_end, read_turn, read_array,
  read_until_full,
}

module _ {S : Type 0} (read : ℕ → Call S Bytes) (remaining : S → Bytes) (pending : S → ℕ)
    (read_takes : (n : ℕ) (s : S) (bs : Bytes)
      → (read n s).0 ≡ ok bs
      → (length bs ≤ n) × (remaining s ≡ bs ++ remaining (read n s).1))
    (read_ends : (n : ℕ) (s : S) → 0 < n → (read n s).0 ≡ ok [] → remaining s ≡ [])
    (read_fails : (n : ℕ) (s : S) (e : SyscallError)
      → (read n s).0 ≡ err e
      → remaining (read n s).1 ≡ remaining s)
    (read_steady : (n : ℕ) (s : S) → pending (read n s).1 ≤ pending s)
    (read_falls : (n : ℕ) (s : S)
      → is_intr (read n s).0 ≡ true
      → pending (read n s).1 < pending s) where
  -- The error of a call of read that was not interrupted, after the bytes that were read.
  abbrev Broken : Bytes → ℕ → PartialTransfer → S → Type 0
  Broken stream size p t =
      (p.transferred < size)
      × (p.transferred ≤ length stream)
      × (remaining t ≡ drop p.transferred stream)
      × ((e : SyscallError) × (p.error ≡ some e)
          × (e.error.encoded ≢ intr.encoded)
          × ((n : ℕ) × (s : S) × ((read n s).0 ≡ err e)))

  -- At the end of the stream.
  abbrev Ended : Bytes → ℕ → PartialTransfer → S → Type 0
  Ended stream size p t =
      (p.transferred < size)
      × (p.transferred ≡ length stream)
      × (remaining t ≡ [])
      × (p.error ≡ none)

  -- What `read_until_full` promises of the stream, and `read_array`.
  abbrev pub Filled : Bytes → ℕ → Outcome Bytes PartialTransfer → S → Type 0
  Filled stream size (done bs) t = (bs ≡ take size stream) × (remaining t ≡ drop size stream)
  Filled stream size (failed p) t = Broken stream size p t
  Filled stream size stuck t = ⊥

  abbrev pub FilledWhole : Bytes → ℕ → Outcome Bytes PartialTransfer → S → Type 0
  FilledWhole stream size (done bs) t =
      (bs ≡ take size stream) × (length bs ≡ size) × (remaining t ≡ drop size stream)
  FilledWhole stream size (failed p) t = Broken stream size p t ⊎ Ended stream size p t
  FilledWhole stream size stuck t = ⊥

  -- The bytes that were read and those that remain.
  abbrev Split : Bytes → ℕ → Bytes → S → Type 0
  Split stream size buf t = (stream ≡ buf ++ remaining t) × (length buf ≤ size)

  abbrev left : ℕ → Bytes → S → ℕ
  left size buf t = pending t + (size - length buf)

  module _ (stream : Bytes) (size : ℕ) (at_end : Bytes → Outcome Bytes PartialTransfer)
      (Q : Outcome Bytes PartialTransfer → S → Type 0)
      (on_full : (buf : Bytes) (t : S)
        → Split stream size buf t
        → length buf ≡ size
        → Q (done buf) t)
      (on_end : (buf : Bytes) (t : S)
        → Split stream size buf t
        → length buf < size
        → remaining t ≡ []
        → Q (at_end buf) t)
      (on_error : (p : PartialTransfer) (t : S) → Broken stream size p t → Q (failed p) t) where
    read_step :
        (buf : Bytes) (s : S) (r : Result Bytes SyscallError) (t : S)
        → Split stream size buf s
        → length buf < size
        → (read (size - length buf) s).0 ≡ r
        → (read (size - length buf) s).1 ≡ t
        → After (Split stream size) Q (left size) (left size buf s) (after_read at_end buf r) t
    read_step buf s (ok []) t h l e q =
        let none_left = read_ends (size - length buf) s (omega (arith, l)) e in
        let same = rw q at (read_takes (size - length buf) s [] e).1 in
        on_end buf t (h.0 ∙ ap (λ x. buf ++ x) same, h.1) l (sym same ∙ none_left)
    read_step buf s (ok (b ∷ bs)) t h l e q =
        let (short, same) = rw q at (read_takes (size - length buf) s (b ∷ bs) e) in
        let steady = rw q at (read_steady (size - length buf) s) in
        let grown = length-append buf (b ∷ bs) in
        (
          (
            h.0 ∙ ap (λ x. buf ++ x) same ∙ sym (append_assoc buf (b ∷ bs) (remaining t)),
            omega (arith, grown, short, l),
          ),
          omega (arith, grown, short, l, steady),
        )
    read_step buf s (err x) t h l e q = elim (Bool-cases (x.error.encoded == intr.encoded)) [
      | inl i ↦ rw i (
          let same = rw q at (read_fails (size - length buf) s x e) in
          let falls = rw q at (read_falls (size - length buf) s (rw e i)) in
          ((h.0 ∙ ap (λ y. buf ++ y) (sym same), h.1), omega (arith, falls)))
      | inr i ↦ rw i (
          let same = rw q at (read_fails (size - length buf) s x e) in
          let parted = h.0 ∙ ap (λ y. buf ++ y) (sym same) in
          on_error (partial (length buf) (some x)) t (
            l,
            rw parted (omega (arith, length-append buf (remaining t))),
            sym (drop-append (length buf) buf (remaining t) refl)
                ∙ ap (drop (length buf)) (sym parted),
            (x, refl, (λ k. ground (arith, i, k)), (size - length buf, s, e)),
          ))
    ]

    -- The loops of `read_until_full` and `read_array`, which differ at the end of the stream.
    read_loop :
        (fuel : ℕ) (s : S)
        → stream ≡ remaining s
        → pending s + size < fuel
        → Q
            (turns fuel (read_turn read at_end size) [] s).0
            (turns fuel (read_turn read at_end size) [] s).1
    read_loop fuel s e m =
        turns_inv (Split stream size) Q (left size) (read_turn read at_end size)
          (λ buf t h. elim (Bool-cases (ltb (length buf) size)) [
            | inl l ↦ rw l (read_step buf t _ _ h (ltb→lt (length buf) size l) refl refl)
            | inr l ↦ rw l (on_full buf t h (ground (arith, l, h.1)))
          ])
          fuel [] s (e, omega arith) (omega (arith, m))

  filled :
      (stream buf : Bytes) (size : ℕ) (t : S)
      → Split stream size buf t
      → length buf ≡ size
      → (buf ≡ take size stream) × (remaining t ≡ drop size stream)
  filled stream buf size t h l = (
    sym (take-append size buf (remaining t) l) ∙ ap (take size) (sym h.0),
    sym (drop-append size buf (remaining t) l) ∙ ap (drop size) (sym h.0),
  )

  all_read :
      (stream buf : Bytes) (size : ℕ) (t : S)
      → Split stream size buf t
      → remaining t ≡ []
      → stream ≡ buf
  all_read stream buf size t h e = h.0 ∙ ap (λ x. buf ++ x) e ∙ append-nil buf

  -- From a stream whose reads answer its next bytes, no more than were asked for and none only at
  -- its end, and whose failed reads take nothing, with fuel for the interrupted reads and the bytes
  -- of the buffer: `read_until_full` ends. It returns the first bytes of the stream, as many as
  -- the buffer holds or as there are, and these are gone from the stream; or it fails with an
  -- error other than EINTR, and the stream has lost as many bytes as the error counts.
  pub read_until_full-Filled :
      (fuel size : ℕ) (s : S)
      → pending s + size < fuel
      → Filled
          (remaining s)
          size
          (read_until_full read fuel size s).0
          (read_until_full read fuel size s).1
  unfolding read_until_full
  read_until_full-Filled fuel size s m =
      read_loop (remaining s) size break_at_end (Filled (remaining s) size)
        (λ buf t h l. filled (remaining s) buf size t h l)
        (λ buf t h l e.
          let whole = all_read (remaining s) buf size t h e in
          (
            rw whole (sym (take_all size buf (omega (arith, l)))),
            e ∙ rw whole (sym (drop_all size buf (omega (arith, l)))),
          ))
        (λ p t b. b) fuel s refl m

  -- Under the same conditions `read_array` ends. It returns bytes only if they fill the array,
  -- which are then the first of the stream; at the end of the stream it fails without an error of a
  -- call, counting all that the stream had.
  pub read_array-FilledWhole :
      (fuel size : ℕ) (s : S)
      → pending s + size < fuel
      → FilledWhole
          (remaining s)
          size
          (read_array read fuel size s).0
          (read_array read fuel size s).1
  unfolding read_array
  read_array-FilledWhole fuel size s m =
      read_loop (remaining s) size fail_at_end (FilledWhole (remaining s) size)
        (λ buf t h l. let (front, rest) = filled (remaining s) buf size t h l in (front, l, rest))
        (λ buf t h l e. inr (l, ap length (sym (all_read (remaining s) buf size t h e)), e, refl))
        (λ p t b. inl b) fuel s refl m
