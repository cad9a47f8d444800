-- ===== src/Meowix/Files.antt =====
-- Files that are opened below a directory and written at once: `write_checked!` and
-- `open_beneath_and_write!` of crates/meowix/src/util.rs. `from` and `incomplete` are the
-- conversions of `?` into the error of the code that uses them.
use layer_cake.Prelude.{
  ℕ, ◌<◌, ◌≡◌, true, Bytes, [], ◌∷◌, length, ◌==◌, Result, ok, Bool-cases, inl, inr, if◌then◌else◌,
  arith,
}
use layer_cake.Meowix.Errors.{SyscallError}
use layer_cake.Meowix.Flags.{
  Flags, o_wronly, o_cloexec, resolve_beneath, resolve_no_magiclinks, resolve_no_symlinks,
}
use layer_cake.Meowix.Act.{Act, Call, is_intr}
use layer_cake.Meowix.Gives.{
  Gives, ◌>>=◌, pure, fail, lift, retried, bind-Gives, weaken-Gives, pure-Gives, fail-Gives,
}
use layer_cake.Meowix.Answers.{Answered, retried-Answered}

pub record FileKernel : Type 1 where
  pub State : Type 0
  -- `openat2` on a directory, with the flags and the `resolve` of `open_how`
  pub openat2 : ℕ → Bytes → Flags → Flags → Call State ℕ
  pub write : ℕ → Bytes → Call State ℕ
  -- the drop of an `OwnedFd`
  pub close : ℕ → State → State

module _ (kernel : FileKernel) where
  open kernel use {State, close}

  -- A file that is dropped on every path.
  unfoldable pub and_drop : {E A : Type 0} → ℕ → Act State E A → Act State E A
  and_drop owned m s = let r = m s in (r.0, close owned r.1)

module _ (kernel : FileKernel) {E : Type 0} (from : SyscallError → E) (incomplete : E)
    (fuel : ℕ) where
  open kernel use {State, openat2, write}

  -- `check_if_incomplete`
  unfoldable pub check_if_incomplete : ℕ → ℕ → Act State E (Unit {0})
  check_if_incomplete count expected = if count == expected then pure tt else fail incomplete

  -- `write_checked!`
  unfoldable pub write_checked : ℕ → Bytes → Act State E (Unit {0})
  unfolding check_if_incomplete
  write_checked fd value = do
    n ← retried from fuel (write fd value)
    check_if_incomplete n (length value)

  -- `open_beneath_and_write!`, whose value is evaluated behind the opening
  unfoldable pub open_beneath_and_write : ℕ → Bytes → Result Bytes E → Act State E (Unit {0})
  unfolding and_drop write_checked
  open_beneath_and_write dir path value = do
    fd ← retried from fuel (
        openat2 dir path (o_wronly ∷ o_cloexec ∷ [])
          (resolve_beneath ∷ resolve_no_magiclinks ∷ resolve_no_symlinks ∷ []))
    and_drop kernel fd (lift value >>= write_checked fd)

-- Interrupted calls lower a measure of the state that is below the fuel.
pub record Settles (kernel : FileKernel) (fuel : ℕ) : Type 0 where
  pub pending : FileKernel.State kernel → ℕ
  pub openat2_falls :
      (dir : ℕ) (path : Bytes) (flags resolve : Flags) (s : FileKernel.State kernel)
      → is_intr (FileKernel.openat2 kernel dir path flags resolve s).0 ≡ true
      → pending (FileKernel.openat2 kernel dir path flags resolve s).1 < pending s
  pub write_falls :
      (fd : ℕ) (value : Bytes) (s : FileKernel.State kernel)
      → is_intr (FileKernel.write kernel fd value s).0 ≡ true
      → pending (FileKernel.write kernel fd value s).1 < pending s
  pub enough : (s : FileKernel.State kernel) → pending s < fuel

-- A call of write has taken the whole value.
abbrev pub WroteWhole : (kernel : FileKernel) → ℕ → Bytes → Type 0
WroteWhole kernel fd value = Answered (FileKernel.write kernel fd value) (length value)

-- A file below the directory was opened without a link on its path, and has taken the whole value.
abbrev pub WroteBeneath : (kernel : FileKernel) → ℕ → Bytes → Bytes → Type 0
WroteBeneath kernel dir path value =
    (fd : ℕ) × Answered
      (FileKernel.openat2 kernel dir path (o_wronly ∷ o_cloexec ∷ [])
        (resolve_beneath ∷ resolve_no_magiclinks ∷ resolve_no_symlinks ∷ []))
      fd
    × WroteWhole kernel fd value

module _ (kernel : FileKernel) where
  open kernel use {State, openat2}

  pub and_drop-Gives :
      {E A : Type 0} (Q : A → Type 0) (n : ℕ) (m : Act State E A)
      → Gives Q m
      → Gives Q (and_drop kernel n m)
  unfolding and_drop
  and_drop-Gives Q n m h = record { at = h.at }

  pub opened-Gives :
      {E : Type 0} (from : SyscallError → E) (fuel : ℕ) (k : Settles kernel fuel) (dir : ℕ)
      (path : Bytes) (flags resolve : Flags)
      → Gives
          (Answered (openat2 dir path flags resolve))
          (retried from fuel (openat2 dir path flags resolve))
  opened-Gives from fuel k dir path flags resolve =
      retried-Answered _ from k.pending (k.openat2_falls dir path flags resolve) fuel k.enough

module _ (kernel : FileKernel) {E : Type 0} (from : SyscallError → E) (incomplete : E) (fuel : ℕ)
    (k : Settles kernel fuel) where
  open kernel use {State, openat2, write}

  pub write_checked-WroteWhole :
      (fd : ℕ) (value : Bytes)
      → Gives (λ _. WroteWhole kernel fd value) (write_checked kernel from incomplete fuel fd value)
  unfolding write_checked check_if_incomplete
  write_checked-WroteWhole fd value =
      bind-Gives _ _ _ _
        (retried-Answered (write fd value) from k.pending (k.write_falls fd value) fuel k.enough)
        (λ n a. elim (Bool-cases (n == length value)) [
          | inl e ↦
              let same : n ≡ length value = ground (arith, e) in
              rw e (pure-Gives _ _ (rw same at a))
          | inr e ↦ rw e (fail-Gives _ _)
        ])

  -- Where interrupted calls lower a measure below the fuel, `open_beneath_and_write!` comes to an
  -- end; and if it succeeds, a file that was opened below the directory, without following a
  -- link, has taken the whole value in one call.
  pub open_beneath_and_write-WroteBeneath :
      (dir : ℕ) (path value : Bytes)
      → Gives
          (λ _. WroteBeneath kernel dir path value)
          (open_beneath_and_write kernel from incomplete fuel dir path (ok value))
  unfolding open_beneath_and_write lift ◌>>=◌
  open_beneath_and_write-WroteBeneath dir path value =
      bind-Gives _ _ _ _ (opened-Gives kernel from fuel k dir path _ _) (λ fd a.
        and_drop-Gives kernel _ fd _
          (weaken-Gives _ _ _ (write_checked-WroteWhole fd value) (λ _ w. (fd, a, w))))
