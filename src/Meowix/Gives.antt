-- ===== src/Meowix/Gives.antt =====
-- What code gives from every state: a value with a property or an error, and in the end one of the
-- two. The steps that code is made of are shut here, so that each has a rule of its own.
use mathlib.Core.Path.{fun_ext}
use layer_cake.Prelude.{
  ℕ, ◌<◌, ◌≡◌, ◌≢◌, refl, ap, Bool, true, false, Result, ok, err, if◌then◌else◌,
}
use layer_cake.Meowix.Errors.{SyscallError}
use layer_cake.Meowix.Act as Act
use layer_cake.Meowix.Act.{
  Outcome, done, failed, stuck, Act, Call, continue, map_failure, settle, is_intr,
  retry_on_interrupt, retry_on_interrupt_ends,
}

module _ {S E : Type 0} where
  unfoldable pub pure : {A : Type 0} → A → Act S E A
  pure a s = (done a, s)

  unfoldable pub fail : {A : Type 0} → E → Act S E A
  fail e s = (failed e, s)

  -- `?` on a result of the code that makes no call
  unfoldable pub lift : {A : Type 0} → Result A E → Act S E A
  lift (ok a) s = (done a, s)
  lift (err e) s = (failed e, s)

  -- A call and `?`.
  unfoldable pub call : {A : Type 0} → (SyscallError → E) → Call S A → Act S E A
  call f c = Act.wrap_error f (Act.once c)

  -- `retry_on_interrupt!` and `?`.
  unfoldable pub retried : {A : Type 0} → (SyscallError → E) → ℕ → Call S A → Act S E A
  unfolding retry_on_interrupt
  retried f fuel c = Act.wrap_error f (retry_on_interrupt fuel c)

  -- A call whose error the code looks at.
  unfoldable pub attempt : {A : Type 0} → Call S A → Act S E (Result A SyscallError)
  attempt c s = let r = c s in (done r.0, r.1)

  infixl 5 ◌>>=◌ ◌>>◌
  -- Opening this opens the others too.
  unfoldable pub ◌>>=◌ : {A B : Type 0} → Act S E A → (A → Act S E B) → Act S E B
  unfolding pure fail lift call retried
  m >>= f = Act.◌>>=◌ m f

  abbrev pub ◌>>◌ : {B : Type 0} → Act S E (Unit {0}) → Act S E B → Act S E B
  m >> k = m >>= λ _. k

module _ {S E A B C : Type 0} where
  continue_assoc :
      (o : Outcome A E) (s : S) (f : A → Act S E B) (g : B → Act S E C)
      → continue (continue o s f).0 (continue o s f).1 g
        ≡ continue o s (λ a t. continue (f a t).0 (f a t).1 g)
  continue_assoc (done a) s f g = refl
  continue_assoc (failed e) s f g = refl
  continue_assoc stuck s f g = refl

  -- A sequence in two ways.
  pub bind_assoc :
      (m : Act S E A) (f : A → Act S E B) (g : B → Act S E C)
      → (m >>= f >>= g) ≡ (m >>= (λ a. f a >>= g))
  unfolding ◌>>=◌
  bind_assoc m f g = fun_ext (λ s. continue_assoc (m s).0 (m s).1 f g)

module _ {S E : Type 0} where
  continue_pure : (o : Outcome (Unit {0}) E) (s : S) → continue o s (λ _ t. (done tt, t)) ≡ (o, s)
  continue_pure (done a) s = refl
  continue_pure (failed e) s = refl
  continue_pure stuck s = refl

  -- Nothing is left to do behind the code.
  pub bind_pure : (m : Act S E (Unit {0})) → (m >> pure tt) ≡ m
  unfolding ◌>>=◌ pure
  bind_pure m = fun_ext (λ s. continue_pure (m s).0 (m s).1)

module _ {S E A B : Type 0} where
  -- `?` on a result that is known.
  pub lift_ok : {r : Result A E} {a : A} (f : A → Act S E B) → r ≡ ok a → (lift r >>= f) ≡ f a
  unfolding lift ◌>>=◌
  lift_ok f e = ap (λ r. lift r >>= f) e

  -- The same code behind the same value.
  pub bind_cong :
      (m : Act S E A) (f g : A → Act S E B) → ((a : A) → f a ≡ g a) → (m >>= f) ≡ (m >>= g)
  bind_cong m f g e = ap (λ k. m >>= k) (fun_ext e)

abbrev pub Post : {A E : Type 0} → (A → Type 0) → Outcome A E → Type 0
Post Q (done a) = Q a
Post Q (failed e) = Unit
Post Q stuck = ⊥

-- `m` returns a value with the property or fails, and is never stuck.
pub record Gives {S E A : Type 0} (Q : A → Type 0) (m : Act S E A) : Type 0 where
  pub at : (s : S) → Post Q (m s).0

abbrev pub Any : {A : Type 0} → A → Type 0
Any a = Unit

ended-Post :
    {E A : Type 0} (f : SyscallError → E) (o : Outcome A SyscallError)
    → o ≢ stuck
    → Post Any (map_failure f o)
ended-Post f (done a) n = tt
ended-Post f (failed e) n = tt
ended-Post f stuck n = n refl

module _ {S E A : Type 0} where
  pub pure-Gives : (Q : A → Type 0) (a : A) → Q a → Gives {S = S} {E = E} Q (pure a)
  unfolding pure
  pure-Gives Q a h = record { at = λ s. h }

  pub fail-Gives : (Q : A → Type 0) (e : E) → Gives {S = S} {E = E} Q (fail e)
  unfolding fail
  fail-Gives Q e = record { at = λ s. tt }

  pub lift-Gives : (r : Result A E) → Gives {S = S} Any (lift r)
  unfolding lift
  lift-Gives (ok a) = record { at = λ s. tt }
  lift-Gives (err e) = record { at = λ s. tt }

  settle-Post :
      (f : SyscallError → E) (r : Result A SyscallError) (s : S)
      → Post Any (map_failure f (settle r s).0)
  settle-Post f (ok a) s = tt
  settle-Post f (err e) s = tt

  pub call-Gives : (f : SyscallError → E) (c : Call S A) → Gives Any (call f c)
  unfolding call
  call-Gives f c = record { at = λ s. settle-Post f (c s).0 (c s).1 }

  -- A call that is retried, where interrupted calls lower a measure below the fuel.
  pub retried-Gives :
      (f : SyscallError → E) (c : Call S A) (pending : S → ℕ)
      → ((s : S) → is_intr (c s).0 ≡ true → pending (c s).1 < pending s)
      → (fuel : ℕ) → ((s : S) → pending s < fuel)
      → Gives Any (retried f fuel c)
  unfolding retried
  retried-Gives f c pending falls fuel enough = record {
    at = λ s.
        ended-Post f (retry_on_interrupt fuel c s).0
          (retry_on_interrupt_ends c pending falls fuel s (enough s));
  }

  pub if-Gives :
      (Q : A → Type 0) (b : Bool) (m n : Act S E A)
      → Gives Q m
      → Gives Q n
      → Gives Q (if b then m else n)
  if-Gives Q true m n h k = h
  if-Gives Q false m n h k = k

  -- A property that follows from another.
  pub weaken-Gives :
      (P Q : A → Type 0) (m : Act S E A) → Gives P m → ((a : A) → P a → Q a) → Gives Q m
  weaken-Gives P Q m h k = record { at = λ s. weaken (m s).0 (h.at s) }
    where
      weaken : (o : Outcome A E) → Post P o → Post Q o
      weaken (done a) p = k a p
      weaken (failed e) p = tt
      weaken stuck p = p

module _ {S E A B : Type 0} where
  continue-Post :
      (P : A → Type 0) (Q : B → Type 0) (o : Outcome A E) (s : S) (f : A → Act S E B)
      → Post P o
      → ((a : A) → P a → Gives Q (f a))
      → Post Q (continue o s f).0
  continue-Post P Q (done a) s f h k = (k a h).at s
  continue-Post P Q (failed e) s f h k = h
  continue-Post P Q stuck s f h k = h

  pub bind-Gives :
      (P : A → Type 0) (Q : B → Type 0) (m : Act S E A) (f : A → Act S E B)
      → Gives P m
      → ((a : A) → P a → Gives Q (f a))
      → Gives Q (m >>= f)
  unfolding ◌>>=◌
  bind-Gives P Q m f h k = record { at = λ s. continue-Post P Q (m s).0 (m s).1 f (h.at s) k }

  -- A sequence whose first value tells nothing.
  pub then-Gives :
      (Q : B → Type 0) (m : Act S E A) (f : A → Act S E B)
      → Gives Any m
      → ((a : A) → Gives Q (f a))
      → Gives Q (m >>= f)
  then-Gives Q m f h k = bind-Gives Any Q m f h (λ a _. k a)

pub ruleset gives_rules = (pure-Gives, fail-Gives, lift-Gives, call-Gives, if-Gives, then-Gives)
