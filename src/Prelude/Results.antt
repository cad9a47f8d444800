-- ===== src/Prelude/Results.antt =====
-- Rust's `Result`, with `?` as the bind of a do block.
use mathlib.Core.Path.{◌≡◌, refl}
use mathlib.Core.Logic.{◌⊎◌, inl, inr}
use mathlib.Core.Bool.{Bool, true, false}
use mathlib.Core.Option.{Option, none, some}

pub data Result {ℓ κ} (A : Type ℓ) (E : Type κ) : Type (ℓ ⊔ κ) where
  ok : A → Result A E
  err : E → Result A E

module _ {ℓ κ} {E : Type κ} {A : Type ℓ} where
  infixl 5 ◌>>=◌ ◌>>◌
  abbrev pub ◌>>=◌ {μ} : {B : Type μ} → Result A E → (A → Result B E) → Result B E
  ok a >>= f = f a
  err e >>= f = err e

  -- `m?;` for a result whose value is not used
  abbrev pub ◌>>◌ {μ} : {B : Type μ} → Result A E → Result B E → Result B E
  m >> k = m >>= λ _. k

  -- `Option::ok_or`
  abbrev pub ok_or : Option A → E → Result A E
  ok_or (some a) e = ok a
  ok_or none e = err e

  -- `Result::map_err(|_| e)`
  abbrev pub map_err {μ} : {F : Type μ} → Result A F → (F → E) → Result A E
  map_err (ok a) f = ok a
  map_err (err e) f = err (f e)

  pub Result-cases : (r : Result A E) → ((a : A) × (r ≡ ok a)) ⊎ ((e : E) × (r ≡ err e))
  Result-cases (ok a) = inl (a, refl)
  Result-cases (err e) = inr (e, refl)

-- `bool::ok_or`
abbrev pub guard {κ} : {E : Type κ} → Bool → E → Result (Unit {0}) E
guard true e = ok tt
guard false e = err e
