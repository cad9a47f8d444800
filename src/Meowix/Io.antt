-- ===== src/Meowix/Io.antt =====
-- Repeated reads and writes on a file descriptor: `FdReadWriteExt` of crates/meowix/src/util.rs.
-- A buffer that a read fills is the part of it that is filled and the number of bytes it holds.
pub mod Reading
pub mod ToEnd
pub mod Writing
use layer_cake.Prelude.{
  ℕ, ◌+◌, ◌-◌, Bytes, length, drop, ◌++◌, [], ◌∷◌, Bool, true, false, Option, none, some, ltb, ◌==◌,
  if◌then◌else◌, Result, ok, err,
}
use layer_cake.Meowix.Errors.{intr, SyscallError}
use layer_cake.Meowix.Act.{Outcome, done, failed, Act, Call, ◌>>=◌, pure, fail}
use layer_cake.Meowix.Turns.{Turn, again, leave, turns}

-- `PartialTransfer`
pub record PartialTransfer : Type 0 where
  pub transferred : ℕ
  pub error : Option SyscallError

abbrev pub partial : ℕ → Option SyscallError → PartialTransfer
partial n e = record { transferred = n; error = e }

-- `Err(e) if e.error() == Errno::INTR => continue`, and the arm after it.
abbrev pub interrupted_or : {X A E : Type 0} → X → (SyscallError → E) → SyscallError → Turn X A E
interrupted_or x f e = if e.error.encoded == intr.encoded then again x else leave (failed (f e))

-- The `match` on the answer of a read into the rest of a buffer, whose `Ok(0)` arm is a parameter.
abbrev pub after_read :
    {A : Type 0}
    → (Bytes → Outcome A PartialTransfer)
    → Bytes
    → Result Bytes SyscallError
    → Turn Bytes A PartialTransfer
after_read at_end buf (ok []) = leave (at_end buf)
after_read at_end buf (ok (b ∷ bs)) = again (buf ++ b ∷ bs)
after_read at_end buf (err e) = interrupted_or buf (λ e. partial (length buf) (some e)) e

-- `Ok(0) => break` and `Ok(0) => return Err(…)`
abbrev pub break_at_end : Bytes → Outcome Bytes PartialTransfer
break_at_end buf = done buf

abbrev pub fail_at_end : Bytes → Outcome Bytes PartialTransfer
fail_at_end buf = failed (partial (length buf) none)

module _ {S : Type 0} (read : ℕ → Call S Bytes) where
  -- A turn of `while let Some(segment) = buf.get_mut(i..) && !segment.is_empty()`.
  abbrev pub read_turn :
      (Bytes → Outcome Bytes PartialTransfer) → ℕ → Bytes → S → Turn Bytes Bytes PartialTransfer × S
  read_turn at_end size buf s =
      if ltb (length buf) size
      then (let r = read (size - length buf) s in (after_read at_end buf r.0, r.1))
      else (leave (done buf), s)

  -- `read_array`
  unfoldable pub read_array : ℕ → ℕ → Act S PartialTransfer Bytes
  read_array fuel size = turns fuel (read_turn fail_at_end size) []

  -- `read_until_full_uninit` and `read_until_full`: the bytes answered are those put at the
  -- beginning of the buffer.
  unfoldable pub read_until_full : ℕ → ℕ → Act S PartialTransfer Bytes
  read_until_full fuel size = turns fuel (read_turn break_at_end size) []

-- The `match` of `read_to_end`, on a vector and its spare capacity.
abbrev pub after_read_uninit :
    Bytes × ℕ → Result Bytes SyscallError → Turn (Bytes × ℕ) Bytes SyscallError
after_read_uninit (buf, spare) (ok []) = leave (done buf)
after_read_uninit (buf, spare) (ok (b ∷ bs)) = again (buf ++ b ∷ bs, spare - length (b ∷ bs))
after_read_uninit x (err e) = interrupted_or x (λ e. e) e

abbrev pub max : ℕ → ℕ → ℕ
max a b = if ltb a b then b else a

-- `reserve` is that of `Vec`: the spare capacity that a request for more leaves.
module _ (reserve : Bytes → ℕ → ℕ) where
  abbrev pub with_spare : Bytes × ℕ → Bytes × ℕ
  with_spare (buf, spare) =
      if spare == 0 then (buf, reserve buf (max (length buf) 32)) else (buf, spare)

  abbrev pub read_to_end_turn :
      {S : Type 0} → (ℕ → Call S Bytes) → Bytes × ℕ → S → Turn (Bytes × ℕ) Bytes SyscallError × S
  read_to_end_turn read x s =
      let y = with_spare x in let r = read y.1 s in (after_read_uninit y r.0, r.1)

  -- `read_to_end`
  unfoldable pub read_to_end :
      {S : Type 0} → (ℕ → Call S Bytes) → ℕ → Bytes × ℕ → Act S SyscallError Bytes
  read_to_end read fuel x = turns fuel (read_to_end_turn read) x

-- The `match` of `write_until_stalled`.
abbrev pub after_write : ℕ → Result ℕ SyscallError → Turn ℕ ℕ PartialTransfer
after_write i (ok n) = if n == 0 then leave (done i) else again (i + n)
after_write i (err e) = interrupted_or i (λ e. partial i (some e)) e

module _ {S : Type 0} (write : Bytes → Call S ℕ) where
  abbrev pub write_turn : Bytes → ℕ → S → Turn ℕ ℕ PartialTransfer × S
  write_turn buf i s =
      if ltb i (length buf)
      then (let r = write (drop i buf) s in (after_write i r.0, r.1))
      else (leave (done i), s)

  -- `write_until_stalled`
  unfoldable pub write_until_stalled : ℕ → Bytes → Act S PartialTransfer ℕ
  write_until_stalled fuel buf = turns fuel (write_turn buf) 0

  -- `write_all`
  unfoldable pub write_all : ℕ → Bytes → Act S PartialTransfer (Unit {0})
  unfolding write_until_stalled
  write_all fuel buf = do
    transferred ← write_until_stalled fuel buf
    if ltb transferred (length buf) then fail (partial transferred none) else pure tt
