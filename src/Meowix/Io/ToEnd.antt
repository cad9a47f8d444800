-- ===== src/Meowix/Io/ToEnd.antt =====
-- `read_to_end` of crates/meowix/src/util.rs reads a whole stream.
use layer_cake.Prelude.{
  length-append, append_assoc, append-nil, ◌⊎◌, ℕ, ◌+◌, ◌≤◌, ◌<◌, ◌≡◌, ◌≢◌, refl, ap, sym, ◌∙◌,
  Bytes, length, ◌++◌, ◌∷◌, [], true, ltb, ◌==◌, Bool-cases, inl, inr, ok, err, Result, arith,
}
use layer_cake.Meowix.Errors.{intr, SyscallError}
use layer_cake.Meowix.Act.{Outcome, done, failed, stuck, Call, is_intr}
use layer_cake.Meowix.Turns.{After, turns_inv}
use layer_cake.Meowix.Io.{false, after_read_uninit, max, with_spare, read_to_end_turn, read_to_end}

module _ {S : Type 0} (read : ℕ → Call S Bytes) (reserve : Bytes → ℕ → ℕ) (remaining : S → Bytes)
    (pending : S → ℕ)
    (reserve_room : (buf : Bytes) (additional : ℕ) → additional ≤ reserve buf additional)
    (read_takes : (n : ℕ) (s : S) (bs : Bytes)
      → (read n s).0 ≡ ok bs
      → remaining s ≡ bs ++ remaining (read n s).1)
    (read_ends : (n : ℕ) (s : S) → 0 < n → (read n s).0 ≡ ok [] → remaining s ≡ [])
    (read_fails : (n : ℕ) (s : S) (e : SyscallError)
      → (read n s).0 ≡ err e
      → remaining (read n s).1 ≡ remaining s)
    (read_steady : (n : ℕ) (s : S) → pending (read n s).1 ≤ pending s)
    (read_falls : (n : ℕ) (s : S)
      → is_intr (read n s).0 ≡ true
      → pending (read n s).1 < pending s) where
  abbrev pub Whole : Bytes → Outcome Bytes SyscallError → S → Type 0
  Whole stream (done bs) t = (bs ≡ stream) × (remaining t ≡ [])
  Whole stream (failed e) t = e.error.encoded ≢ intr.encoded
  Whole stream stuck t = ⊥

  abbrev Split : Bytes → Bytes × ℕ → S → Type 0
  Split stream x t = stream ≡ x.0 ++ remaining t

  abbrev left : Bytes × ℕ → S → ℕ
  left x t = pending t + length (remaining t)

  to_end_step :
      (stream : Bytes) (x : Bytes × ℕ) (s : S) (r : Result Bytes SyscallError) (t : S)
      → Split stream x s
      → 0 < x.1
      → (read x.1 s).0 ≡ r
      → (read x.1 s).1 ≡ t
      → After (Split stream) (Whole stream) left (left x s) (after_read_uninit x r) t
  to_end_step stream (buf, spare) s (ok []) t h l e q =
      let same = rw q at (read_takes spare s [] e) in
      let nothing = read_ends spare s l e in
      (sym (h ∙ ap (λ y. buf ++ y) nothing ∙ append-nil buf), sym same ∙ nothing)
  to_end_step stream (buf, spare) s (ok (b ∷ bs)) t h l e q =
      let same = rw q at (read_takes spare s (b ∷ bs) e) in
      let steady = rw q at (read_steady spare s) in
      (
        h ∙ ap (λ y. buf ++ y) same ∙ sym (append_assoc buf (b ∷ bs) (remaining t)),
        omega (arith, steady, ap length same, length-append bs (remaining t)),
      )
  to_end_step stream (buf, spare) s (err x) t h l e q =
      let same = rw q at (read_fails spare s x e) in
      elim (Bool-cases (x.error.encoded == intr.encoded)) [
        | inl z ↦ rw z (
          h ∙ ap (λ y. buf ++ y) (sym same),
          omega (arith, rw q at (read_falls spare s (rw e z)), ap length same),
        )
        | inr z ↦ rw z (λ m. ground (arith, z, m))
      ]

  -- Room is made before each read.
  spare_pos : (x : Bytes × ℕ) → (0 < (with_spare reserve x).1) × ((with_spare reserve x).0 ≡ x.0)
  spare_pos (buf, spare) = elim (Bool-cases (spare == 0)) [
    | inl z ↦ rw z (positive (Bool-cases (ltb (length buf) 32)), refl)
    | inr z ↦ rw z (ground (arith, z), refl)
  ]
    where
      positive :
          (ltb (length buf) 32 ≡ true) ⊎ (ltb (length buf) 32 ≡ false)
          → 0 < reserve buf (max (length buf) 32)
      positive (inl z) = rw z (omega (arith, reserve_room buf 32))
      positive (inr z) = rw z (ground (arith, z, reserve_room buf (length buf)))

  -- From a stream whose reads answer its next bytes, and none only at its end, and whose failed
  -- reads take nothing, with fuel for the interrupted reads and the bytes of the stream:
  -- `read_to_end` ends. It returns what the vector had and then the whole stream, of which nothing
  -- remains, or it fails with an error other than EINTR.
  pub read_to_end-Whole :
      (fuel : ℕ) (buf : Bytes) (spare : ℕ) (s : S)
      → pending s + length (remaining s) < fuel
      → Whole
          (buf ++ remaining s)
          (read_to_end reserve read fuel (buf, spare) s).0
          (read_to_end reserve read fuel (buf, spare) s).1
  unfolding read_to_end
  read_to_end-Whole fuel buf spare s m =
      turns_inv (Split (buf ++ remaining s)) (Whole (buf ++ remaining s)) left
        (read_to_end_turn reserve read)
        (λ x t h.
          let (room, kept) = spare_pos x in
          to_end_step (buf ++ remaining s) (with_spare reserve x) t _ _
            (h ∙ ap (λ y. y ++ remaining t) (sym kept)) room refl refl)
        fuel (buf, spare) s refl m
