-- ===== src/Meowix/Capabilities/Bounding.antt =====
-- What `drop_bounding_set` and `set_ambient_capabilities` of crates/meowix/src/capabilities.rs leave
-- in the sets of the process.
use layer_cake.Prelude.{
  ℕ, zero, suc, ◌+◌, ◌≤◌, ◌<◌, ◌≡◌, ◌≢◌, refl, ap, sym, ◌∙◌, Bool, true, false, ◌&&◌, ◌==◌,
  Bool-cases, inl, inr, Result, ok, err, arith,
}
use layer_cake.Meowix.Errors.{SyscallError}
use layer_cake.Meowix.Act.{Outcome, done, failed, stuck, Act, Call}
use layer_cake.Meowix.Gives.{◌>>=◌, attempt, pure, fail}
use layer_cake.Meowix.Capabilities.{
  CapabilitySet, contains, inval, after_drop, drop_loop, drop_bounding_set,
}

module _ {S : Type 0} (drop : ℕ → Call S (Unit {0})) (bounding : S → ℕ → Bool)
    (drop_removes : (cap : ℕ) (s : S)
      → (drop cap s).0 ≡ ok tt
      → bounding (drop cap s).1 cap ≡ false)
    (drop_keeps : (cap other : ℕ) (s : S)
      → other ≢ cap
      → bounding (drop cap s).1 other ≡ bounding s other)
    (drop_unknown : (cap other : ℕ) (s : S) (e : SyscallError)
      → (drop cap s).0 ≡ err e
      → e.error.encoded ≡ inval.encoded
      → cap ≤ other
      → bounding (drop cap s).1 other ≡ false) where
  -- The bounding set has what it had of `kept`, of the capabilities from `cap` to the bound.
  abbrev Kept : CapabilitySet → ℕ → ℕ → S → S → Type 0
  Kept kept cap n s t =
      (j : ℕ) → cap ≤ j → j < cap + n → bounding t j ≡ (bounding s j && contains kept j)

  abbrev Before : ℕ → S → S → Type 0
  Before cap s t = (j : ℕ) → j < cap → bounding t j ≡ bounding s j

  abbrev pub Dropped : CapabilitySet → ℕ → ℕ → S → Outcome (Unit {0}) SyscallError → S → Type 0
  Dropped kept n cap s (done _) t = Kept kept cap n s t × Before cap s t
  Dropped kept n cap s (failed e) t = e.error.encoded ≢ inval.encoded
  Dropped kept n cap s stuck t = ⊥

  -- A round for one capability, and then the others.
  extend :
      (kept n cap : ℕ) (s s' : S) (o : Outcome (Unit {0}) SyscallError) (t : S)
      → bounding s' cap ≡ (bounding s cap && contains kept cap)
      → ((j : ℕ) → j ≢ cap → bounding s' j ≡ bounding s j)
      → Dropped kept n (cap + 1) s' o t
      → Dropped kept (suc n) cap s o t
  extend kept n cap s s' (done _) t here there (later, before) = (
    λ j l h. elim (Bool-cases (j == cap)) [
      | inl e ↦ let same : j ≡ cap = ground (arith, e) in rw same (before cap (omega arith) ∙ here)
      | inr e ↦
          let other : j ≢ cap = λ q. ground (arith, e, q) in
          let above : cap + 1 ≤ j = ground (arith, l, e) in
          later j above (omega (arith, h)) ∙ rw (there j other) refl
    ],
    λ j h. before j (omega arith) ∙ there j (λ q. omega (arith, h, q)),
  )
  extend kept n cap s s' (failed e) t here there h = h
  extend kept n cap s s' stuck t here there h = h

  and_true : (b : Bool) → b ≡ (b && true)
  and_true true = refl
  and_true false = refl

  and_false : (b : Bool) → false ≡ (b && false)
  and_false true = refl
  and_false false = refl

  -- What the answer for one capability leaves, if the rounds that are left do what they do.
  after_drop-Dropped :
      (kept n cap : ℕ) (s : S) (rest : Act S SyscallError (Unit {0}))
      (r : Result (Unit {0}) SyscallError) (t : S)
      → contains kept cap ≡ false
      → (drop cap s).0 ≡ r
      → (drop cap s).1 ≡ t
      → Dropped kept n (cap + 1) t (rest t).0 (rest t).1
      → Dropped kept (suc n) cap s (after_drop rest r t).0 (after_drop rest r t).1
  unfolding pure fail
  after_drop-Dropped kept n cap s rest (ok _) t c e q h =
      extend kept n cap s t _ _ (rw (sym q, c) (drop_removes cap s e ∙ and_false (bounding s cap)))
        (λ j o. rw (sym q) (drop_keeps cap j s o)) h
  after_drop-Dropped kept n cap s rest (err x) t c e q h =
      elim (Bool-cases (x.error.encoded == inval.encoded)) [
        | inl b ↦ rw b (
            let stop : x.error.encoded ≡ inval.encoded = ground (arith, b) in
            (
              (λ j l m. unknown j stop l),
              λ j l. rw (sym q) (drop_keeps cap j s (λ w. omega (arith, w, l))),
            ))
        | inr b ↦ rw b (λ w. ground (arith, b, w))
      ]
    where
      unknown :
          (j : ℕ)
          → x.error.encoded ≡ inval.encoded
          → cap ≤ j
          → bounding t j ≡ (bounding s j && contains kept j)
      unknown j stop l = elim (Bool-cases (j == cap)) [
        | inl b ↦
            let same : j ≡ cap = ground (arith, b) in
            rw (sym q) (drop_unknown cap j s x e stop l)
            ∙ and_false (bounding s j)
            ∙ ap (λ d. bounding s j && d) (sym c ∙ ap (contains kept) (sym same))
        | inr b ↦
            let gone = drop_unknown cap j s x e stop l in
            let before = sym (drop_keeps cap j s (λ w. ground (arith, b, w))) ∙ gone in
            rw (sym q) gone ∙ ap (λ d. d && contains kept j) (sym before)
      ]

  drop_loop-Dropped :
      (kept n cap : ℕ) (s : S)
      → Dropped kept n cap s (drop_loop drop kept n cap s).0 (drop_loop drop kept n cap s).1
  unfolding drop_loop attempt pure fail ◌>>=◌
  drop_loop-Dropped kept zero cap s = ((λ j l h. absurd (omega arith)), λ j h. refl)
  drop_loop-Dropped kept (suc n) cap s = elim (Bool-cases (contains kept cap)) [
    | inl e ↦ rw e (
        extend kept n cap s s _ _ (rw e (and_true (bounding s cap))) (λ j h. refl)
          (drop_loop-Dropped kept n (cap + 1) s))
    | inr e ↦ rw e (
        after_drop-Dropped kept n cap s (drop_loop drop kept n (cap + 1)) _ _ e refl refl
          (drop_loop-Dropped kept n (cap + 1) (drop cap s).1))
  ]

  -- Where a capability that is dropped leaves the bounding set and all others stay, and where an
  -- unknown one is refused with EINVAL and none above it is known: `drop_bounding_set` comes to an
  -- end. If it succeeds, the bounding set has, of the capabilities below 64, those of the given set
  -- that it had; if it fails, the error is not EINVAL.
  pub drop_bounding_set-Dropped :
      (other_than : CapabilitySet) (s : S)
      → Dropped other_than 64 0 s
          (drop_bounding_set drop other_than s).0
          (drop_bounding_set drop other_than s).1
  unfolding drop_bounding_set
  drop_bounding_set-Dropped other_than s = drop_loop-Dropped other_than 64 0 s
