-- ===== src/Meowix/Netlink/Leaves.antt =====
-- Code that leaves a value and a state with a property, from a state of its own, or fails.
use layer_cake.Prelude.{ℕ, ◌≤◌, ◌<◌, ◌≡◌, refl, true, Result, ok, err, arith}
use layer_cake.Meowix.Errors.{SyscallError}
use layer_cake.Meowix.Act.{
  Outcome, done, failed, stuck, Act, Call, continue, settle, map_failure, is_intr,
  retry_on_interrupt, retry_on_interrupt_ends, retry_on_interrupt_last,
}
use layer_cake.Meowix.Gives.{Post, Gives, ◌>>=◌, retried, lift, call}
use layer_cake.Meowix.Netlink.Setup.{as_value, caught}

-- A value and a state with the property, or a failure.
abbrev pub Leaves : {S A E : Type 0} → (A → S → Type 0) → Outcome A E × S → Type 0
Leaves Q (done a, t) = Q a t
Leaves Q (failed e, t) = Unit
Leaves Q (stuck, t) = ⊥

module _ {S A B E : Type 0} where
  continue-Leaves :
      (P : A → S → Type 0) (Q : B → S → Type 0) (o : Outcome A E) (t : S) (f : A → Act S E B)
      → Leaves P (o, t)
      → ((a : A) (t : S) → P a t → Leaves Q (f a t))
      → Leaves Q (continue o t f)
  continue-Leaves P Q (done a) t f h k = k a t h
  continue-Leaves P Q (failed e) t f h k = tt
  continue-Leaves P Q stuck t f h k = h

  pub bind-Leaves :
      (P : A → S → Type 0) (Q : B → S → Type 0) (m : Act S E A) (f : A → Act S E B) (s : S)
      → Leaves P (m s)
      → ((a : A) (t : S) → P a t → Leaves Q (f a t))
      → Leaves Q ((m >>= f) s)
  unfolding ◌>>=◌
  bind-Leaves P Q m f s h k = continue-Leaves P Q (m s).0 (m s).1 f h k

-- A call that is retried, from a state with a property that interrupted calls keep.
module _ {S A : Type 0} (c : Call S A) (pending : S → ℕ)
    (falls : (s : S) → is_intr (c s).0 ≡ true → pending (c s).1 < pending s) (fuel : ℕ)
    (enough : (s : S) → pending s < fuel) where
  last_call :
      (bound : ℕ) (s : S)
      → pending s ≤ bound
      → (t : S) × (pending t ≤ bound) × (retry_on_interrupt fuel c s ≡ settle (c t).0 (c t).1)
  last_call bound s h =
      retry_on_interrupt_last c (λ t. pending t ≤ bound) (λ t p i. omega (arith, p, falls t i)) fuel
        s h (retry_on_interrupt_ends c pending falls fuel s (enough s))

  settled-Leaves :
      {E : Type 0} (f : SyscallError → E) (Q : A → S → Type 0) (r : Result A SyscallError) (t : S)
      → ((a : A) → r ≡ ok a → Q a t)
      → Leaves Q (map_failure f (settle r t).0, (settle r t).1)
  settled-Leaves f Q (ok a) t h = h a refl
  settled-Leaves f Q (err e) t h = tt

  pub retried-Leaves :
      {E : Type 0} (f : SyscallError → E) (Q : A → S → Type 0) (s : S)
      → ((t : S) (a : A) → pending t ≤ pending s → (c t).0 ≡ ok a → Q a (c t).1)
      → Leaves Q (retried f fuel c s)
  unfolding retried
  retried-Leaves f Q s h =
      let (t, kept, same) = last_call (pending s) s (omega arith) in
      rw same (settled-Leaves f Q (c t).0 (c t).1 (λ a e. h t a kept e))

  caught_settled :
      (Q : Result A SyscallError → S → Type 0) (r : Result A SyscallError) (t : S)
      → Q r t
      → Leaves Q (as_value (settle r t).0, (settle r t).1)
  caught_settled Q (ok a) t h = h
  caught_settled Q (err e) t h = h

  pub caught-Leaves :
      (Q : Result A SyscallError → S → Type 0) (s : S)
      → ((t : S) → pending t ≤ pending s → Q (c t).0 (c t).1)
      → Leaves Q (caught (retry_on_interrupt fuel c) s)
  unfolding caught
  caught-Leaves Q s h =
      let (t, kept, same) = last_call (pending s) s (omega arith) in
      rw same (caught_settled Q (c t).0 (c t).1 (h t kept))

module _ {S A E : Type 0} where
  -- A property, and the run that leads to it.
  pub Leaves-run :
      (Q : A → S → Type 0) (r : Outcome A E × S)
      → Leaves Q r
      → Leaves (λ a t. Q a t × (r ≡ (done a, t))) r
  Leaves-run Q (done a, t) h = (h, refl)
  Leaves-run Q (failed e, t) h = tt
  Leaves-run Q (stuck, t) h = h

  pub weaken-Leaves :
      (P Q : A → S → Type 0) (r : Outcome A E × S)
      → Leaves P r
      → ((a : A) (t : S) → P a t → Q a t)
      → Leaves Q r
  weaken-Leaves P Q (done a, t) h k = k a t h
  weaken-Leaves P Q (failed e, t) h k = tt
  weaken-Leaves P Q (stuck, t) h k = h

  pub lift-Leaves : (r : Result A E) (s : S) → Leaves (λ a t. (r ≡ ok a) × (s ≡ t)) (lift r s)
  unfolding lift
  lift-Leaves (ok a) s = (refl, refl)
  lift-Leaves (err e) s = tt

  call_settled :
      (f : SyscallError → E) (c : Call S A) (s : S) (r : Result A SyscallError × S)
      → c s ≡ r
      → Leaves (λ a t. c s ≡ (ok a, t)) (map_failure f (settle r.0 r.1).0, (settle r.0 r.1).1)
  call_settled f c s (ok a, t) e = e
  call_settled f c s (err x, t) e = tt

  -- A call has had this answer, and has left this state.
  pub call-Leaves :
      (f : SyscallError → E) (c : Call S A) (s : S) → Leaves (λ a t. c s ≡ (ok a, t)) (call f c s)
  unfolding call
  call-Leaves f c s = call_settled f c s (c s) refl

module _ {S A E : Type 0} where
  -- The value alone, where the state tells nothing.
  pub Leaves-Post : (Q : A → Type 0) (r : Outcome A E × S) → Leaves (λ a _. Q a) r → Post Q r.0
  Leaves-Post Q (done a, t) h = h
  Leaves-Post Q (failed e, t) h = tt
  Leaves-Post Q (stuck, t) h = h

  Post-Leaves : (Q : A → Type 0) (r : Outcome A E × S) → Post Q r.0 → Leaves (λ a _. Q a) r
  Post-Leaves Q (done a, t) h = h
  Post-Leaves Q (failed e, t) h = tt
  Post-Leaves Q (stuck, t) h = h

  pub Gives-Leaves :
      (Q : A → Type 0) (m : Act S E A) → Gives Q m → (s : S) → Leaves (λ a _. Q a) (m s)
  Gives-Leaves Q m h s = Post-Leaves Q (m s) (h.at s)
