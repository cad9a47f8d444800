-- ===== src/Meowix/Act.antt =====
-- Code that makes syscalls: a function of the kernel's state, which fails with a value or does not
-- return. `retry_on_interrupt!` of crates/meowix/src/util.rs is the one loop over a single call.
use layer_cake.Prelude.{
  ℕ, zero, suc, ◌<◌, ◌≡◌, ◌≢◌, refl, ap, sym, ◌∙◌, Bool, true, false, Bool-cases, inl, inr, ◌==◌,
  Result, ok, err, arith,
}
use layer_cake.Meowix.Errors.{intr, SyscallError}

-- `stuck` is no value of the program: a loop on fuel has used it up.
pub data Outcome (A E : Type 0) : Type 0 where
  done : A → Outcome A E
  failed : E → Outcome A E
  stuck : Outcome A E

abbrev pub Act : Type 0 → Type 0 → Type 0 → Type 0
Act S E A = S → Outcome A E × S

-- What follows an outcome.
abbrev pub continue : {S E A B : Type 0} → Outcome A E → S → (A → Act S E B) → Outcome B E × S
continue (done a) s f = f a s
continue (failed e) s f = (failed e, s)
continue stuck s f = (stuck, s)

infixl 5 ◌>>=◌ ◌>>◌
abbrev pub ◌>>=◌ : {S E A B : Type 0} → Act S E A → (A → Act S E B) → Act S E B
◌>>=◌ m f s = let r = m s in continue r.0 r.1 f

abbrev pub ◌>>◌ : {S E B : Type 0} → Act S E (Unit {0}) → Act S E B → Act S E B
◌>>◌ m k = m >>= λ _. k

abbrev pub pure : {S E A : Type 0} → A → Act S E A
pure a s = (done a, s)

abbrev pub fail : {S E A : Type 0} → E → Act S E A
fail e s = (failed e, s)

-- `From` for the error of `?`
abbrev pub map_failure : {E F A : Type 0} → (E → F) → Outcome A E → Outcome A F
map_failure f (done a) = done a
map_failure f (failed e) = failed (f e)
map_failure f stuck = stuck

abbrev pub wrap_error : {S E F A : Type 0} → (E → F) → Act S E A → Act S F A
wrap_error f m s = let r = m s in (map_failure f r.0, r.1)

-- A syscall is one step of the kernel.
abbrev pub Call : Type 0 → Type 0 → Type 0
Call S A = S → Result A SyscallError × S

abbrev pub is_intr : {A : Type 0} → Result A SyscallError → Bool
is_intr (ok a) = false
is_intr (err e) = e.error.encoded == intr.encoded

abbrev pub settle : {S A : Type 0} → Result A SyscallError → S → Outcome A SyscallError × S
settle (ok a) s = (done a, s)
settle (err e) s = (failed e, s)

-- A call made once.
abbrev pub once : {S A : Type 0} → Call S A → Act S SyscallError A
once f s = let r = f s in settle r.0 r.1

-- `retry_on_interrupt!`
unfoldable pub retry_on_interrupt : {S A : Type 0} → ℕ → Call S A → Act S SyscallError A
retry_on_interrupt zero f s = (stuck, s)
retry_on_interrupt (suc fuel) f s =
    let r = f s in
    elim (is_intr r.0) [ true ↦ retry_on_interrupt fuel f r.1 | false ↦ settle r.0 r.1 ]

pub settle-ne-stuck : {S A : Type 0} (r : Result A SyscallError) (s : S) → (settle r s).0 ≢ stuck
settle-ne-stuck (ok a) s = λ e. cc
settle-ne-stuck (err e) s = λ e. cc

done-ne-stuck : {A E : Type 0} {o : Outcome A E} {a : A} → o ≡ done a → o ≢ stuck
done-ne-stuck e q = cc

settle-state : {S A : Type 0} (r : Result A SyscallError) (s : S) → (settle r s).1 ≡ s
settle-state (ok a) s = refl
settle-state (err e) s = refl

pub settle-done :
    {S A : Type 0} (r : Result A SyscallError) (s : S) (a : A)
    → (settle r s).0 ≡ done a
    → (r ≡ ok a) × ((settle r s).1 ≡ s)
settle-done (ok b) s a h = (cc, refl)
settle-done (err e) s a h = cc

continue-done :
    {S E A B : Type 0} (o : Outcome A E) (s : S) (f : A → Act S E B) (b : B)
    → (continue o s f).0 ≡ done b
    → (a : A) × (o ≡ done a) × (continue o s f ≡ f a s)
continue-done (done a) s f b h = (a, refl, refl)
continue-done (failed e) s f b h = cc
continue-done stuck s f b h = cc

continue-keeps :
    {S E A B : Type 0} (P : S → Type 0) (o : Outcome A E) (s : S) (f : A → Act S E B)
    → P s
    → ((a : A) (t : S) → P t → P (f a t).1)
    → P (continue o s f).1
continue-keeps P (done a) s f h k = k a s h
continue-keeps P (failed e) s f h k = h
continue-keeps P stuck s f h k = h

module _ {S A : Type 0} (f : Call S A) where
  -- With a measure of the state that every interrupted call lowers, the loop of
  -- `retry_on_interrupt!` comes to an end on fuel above the measure.
  pub retry_on_interrupt_ends :
      (pending : S → ℕ)
      → ((s : S) → is_intr (f s).0 ≡ true → pending (f s).1 < pending s)
      → (fuel : ℕ) (s : S) → pending s < fuel
      → (retry_on_interrupt fuel f s).0 ≢ stuck
  unfolding retry_on_interrupt
  retry_on_interrupt_ends pending falls zero s h = absurd (omega arith)
  retry_on_interrupt_ends pending falls (suc fuel) s h = elim (Bool-cases (is_intr (f s).0)) [
    | inl e ↦
        rw (e, retry_on_interrupt)
          (retry_on_interrupt_ends pending falls fuel (f s).1 (omega (arith, falls s e)))
    | inr e ↦ rw (e, retry_on_interrupt) (settle-ne-stuck (f s).0 (f s).1)
  ]

  -- A loop that ends has made a last call, in a state with every property that interrupted calls
  -- keep, and passes its answer on.
  pub retry_on_interrupt_last :
      (P : S → Type 0)
      → ((s : S) → P s → is_intr (f s).0 ≡ true → P (f s).1)
      → (fuel : ℕ) (s : S) → P s
      → (retry_on_interrupt fuel f s).0 ≢ stuck
      → (t : S) × P t × (retry_on_interrupt fuel f s ≡ settle (f t).0 (f t).1)
  unfolding retry_on_interrupt
  retry_on_interrupt_last P keep zero s h ne = absurd (ne refl)
  retry_on_interrupt_last P keep (suc fuel) s h ne = elim (Bool-cases (is_intr (f s).0)) [
    | inl e ↦
        rw (e, retry_on_interrupt)
          (retry_on_interrupt_last P keep fuel (f s).1 (keep s h e)
            (rw (e, retry_on_interrupt) at ne))
    | inr e ↦ (s, h, rw (e, retry_on_interrupt))
  ]

  -- A loop that is done has made a last call that was done.
  pub retry_on_interrupt_done :
      (P : S → Type 0)
      → ((s : S) → P s → is_intr (f s).0 ≡ true → P (f s).1)
      → (fuel : ℕ) (s : S) (a : A) → P s
      → (retry_on_interrupt fuel f s).0 ≡ done a
      → (t : S) × P t × ((f t).0 ≡ ok a) × ((retry_on_interrupt fuel f s).1 ≡ (f t).1)
  retry_on_interrupt_done P keep fuel s a h e =
      let (t, kept, last) = retry_on_interrupt_last P keep fuel s h (done-ne-stuck e) in
      let (answer, left) = settle-done (f t).0 (f t).1 a (sym (ap (λ r. r.0) last) ∙ e) in
      (t, kept, answer, ap (λ r. r.1) last ∙ left)

  -- What every call keeps, the loop keeps.
  pub retry_on_interrupt_keeps :
      (P : S → Type 0)
      → ((s : S) → P s → P (f s).1)
      → (fuel : ℕ) (s : S) → P s
      → P (retry_on_interrupt fuel f s).1
  unfolding retry_on_interrupt
  retry_on_interrupt_keeps P keep zero s h = h
  retry_on_interrupt_keeps P keep (suc fuel) s h = elim (Bool-cases (is_intr (f s).0)) [
    | inl e ↦ rw (e, retry_on_interrupt) (retry_on_interrupt_keeps P keep fuel (f s).1 (keep s h))
    | inr e ↦ rw (e, retry_on_interrupt, settle-state (f s).0 (f s).1) (keep s h)
  ]

-- A sequence that is done has done its first part.
pub bind-done :
    {S E A B : Type 0} (m : Act S E A) (f : A → Act S E B) (s : S) (b : B)
    → ((m >>= f) s).0 ≡ done b
    → (a : A) × ((m s).0 ≡ done a) × ((m >>= f) s ≡ f a (m s).1)
bind-done m f s b h = continue-done (m s).0 (m s).1 f b h

-- What both parts of a sequence keep, the sequence keeps.
pub bind-keeps :
    {S E A B : Type 0} (P : S → Type 0) (m : Act S E A) (f : A → Act S E B) (s : S)
    → P (m s).1
    → ((a : A) (t : S) → P t → P (f a t).1)
    → P ((m >>= f) s).1
bind-keeps P m f s h k = continue-keeps P (m s).0 (m s).1 f h k

pub once-keeps : {S A : Type 0} (P : S → Type 0) (f : Call S A) (s : S) → P (f s).1 → P (once f s).1
once-keeps P f s h = rw (settle-state (f s).0 (f s).1) h

pub once-done :
    {S A : Type 0} (f : Call S A) (s : S) (a : A)
    → (once f s).0 ≡ done a
    → ((f s).0 ≡ ok a) × ((once f s).1 ≡ (f s).1)
once-done f s a h = settle-done (f s).0 (f s).1 a h
