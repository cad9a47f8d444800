-- ===== src/Meowix/Turns.antt =====
-- The `loop` and `while` of the program as turns of a body, which goes on with new values of the
-- variables that it sets or leaves the loop.
use layer_cake.Prelude.{ℕ, zero, suc, ◌<◌, arith}
use layer_cake.Meowix.Act.{Outcome, stuck, Act}

pub data Turn (X A E : Type 0) : Type 0 where
  again : X → Turn X A E
  leave : Outcome A E → Turn X A E

module _ {S X A E : Type 0} where
  -- What follows a turn.
  abbrev pub go_on : Turn X A E → S → (X → Act S E A) → Outcome A E × S
  go_on (again y) t f = f y t
  go_on (leave o) t f = (o, t)

  -- A loop on fuel.
  unfoldable pub turns : ℕ → (X → S → Turn X A E × S) → X → Act S E A
  turns zero body x s = (stuck, s)
  turns (suc fuel) body x s = let r = body x s in go_on r.0 r.1 (turns fuel body)

  module _ (P : X → S → Type 0) (Q : Outcome A E → S → Type 0) (measure : X → S → ℕ) where
    -- What a turn that starts below `bound` is to give.
    abbrev pub After : ℕ → Turn X A E → S → Type 0
    After bound (again y) t = P y t × (measure y t < bound)
    After bound (leave o) t = Q o t

    go_on_inv :
        (bound : ℕ) (o : Turn X A E) (t : S) (f : X → Act S E A)
        → After bound o t
        → ((y : X) (t : S) → P y t → measure y t < bound → Q (f y t).0 (f y t).1)
        → Q (go_on o t f).0 (go_on o t f).1
    go_on_inv bound (again y) t f k rest = rest y t k.0 k.1
    go_on_inv bound (leave o) t f k rest = k

    -- The invariant rule: a body that keeps the invariant and lowers the measure, or leaves with
    -- the conclusion, makes a loop that has the conclusion on fuel above the measure.
    pub turns_inv :
        (body : X → S → Turn X A E × S)
        → ((x : X) (s : S) → P x s → After (measure x s) (body x s).0 (body x s).1)
        → (fuel : ℕ) (x : X) (s : S) → P x s
        → measure x s < fuel
        → Q (turns fuel body x s).0 (turns fuel body x s).1
    unfolding turns
    turns_inv body keep zero x s h m = absurd (omega arith)
    turns_inv body keep (suc fuel) x s h m =
        go_on_inv (measure x s) (body x s).0 (body x s).1 (turns fuel body) (keep x s h)
          (λ y t k l. turns_inv body keep fuel y t k (omega arith))
