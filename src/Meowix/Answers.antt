-- ===== src/Meowix/Answers.antt =====
-- What the calls of code that comes to an end have answered.
use layer_cake.Prelude.{ℕ, ◌<◌, ◌≡◌, ◌≢◌, refl, true, Result, ok, err}
use layer_cake.Meowix.Errors.{SyscallError}
use layer_cake.Meowix.Act.{
  Outcome, done, failed, stuck, Call, map_failure, settle, is_intr, retry_on_interrupt,
  retry_on_interrupt_ends, retry_on_interrupt_done,
}
use layer_cake.Meowix.Gives.{Post, Gives, call, attempt, retried}

-- A call has had this answer.
abbrev pub Answered : {S A : Type 0} → Call S A → A → Type 0
Answered {S} c a = (s : S) × ((c s).0 ≡ ok a)

module _ {S A : Type 0} (c : Call S A) where
  settle-Answered :
      {E : Type 0} (f : SyscallError → E) (s t : S) (r : Result A SyscallError)
      → (c s).0 ≡ r
      → Post (Answered c) (map_failure f (settle r t).0)
  settle-Answered f s t (ok a) e = (s, e)
  settle-Answered f s t (err x) e = tt

  pub call-Answered : {E : Type 0} (f : SyscallError → E) → Gives (Answered c) (call f c)
  unfolding call
  call-Answered f = record { at = λ s. settle-Answered f s (c s).1 (c s).0 refl }

  pub attempt-Answered : {E : Type 0} → Gives {E = E} (λ r. (s : S) × ((c s).0 ≡ r)) (attempt c)
  unfolding attempt
  attempt-Answered = record { at = λ s. (s, refl) }

  done-Answered :
      {E : Type 0} (f : SyscallError → E) (o : Outcome A SyscallError)
      → ((a : A) → o ≡ done a → Answered c a)
      → o ≢ stuck
      → Post (Answered c) (map_failure f o)
  done-Answered f (done a) h n = h a refl
  done-Answered f (failed e) h n = tt
  done-Answered f stuck h n = n refl

  pub retried-Answered :
      {E : Type 0} (f : SyscallError → E) (pending : S → ℕ)
      → ((s : S) → is_intr (c s).0 ≡ true → pending (c s).1 < pending s)
      → (fuel : ℕ) → ((s : S) → pending s < fuel)
      → Gives (Answered c) (retried f fuel c)
  unfolding retried
  retried-Answered f pending falls fuel enough = record {
    at = λ s.
        done-Answered f (retry_on_interrupt fuel c s).0
          (λ a e.
            let (t, _, answer, _) =
              retry_on_interrupt_done c (λ _. Unit {0}) (λ _ _ _. tt) fuel s a tt e in
            (t, answer))
          (retry_on_interrupt_ends c pending falls fuel s (enough s));
  }
