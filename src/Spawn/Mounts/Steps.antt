-- ===== src/Spawn/Mounts/Steps.antt =====
-- What the steps of the code on mounts give.
use layer_cake.Prelude.{ℕ, ◌<◌, ◌≡◌, refl, lt→ltb, length, ◌++◌, [], ◌∷◌}
use layer_cake.Meowix.Gives.{Gives, Any, gives_rules}
use layer_cake.Spawn.Mounts.{
  MountKernel, Guest, and_close, or_close, Slots, ResolvedMount, put, write_slot, Bounded, push,
}

pub write_slot-Gives :
    {S E : Type 0} (i : ℕ) (r : ResolvedMount) (slots : Slots)
    → i < slots.capacity
    → Gives {S = S} {E = E} (λ slots'. slots' ≡ put i r slots) (write_slot i r slots)
unfolding write_slot
write_slot-Gives i r slots h = record { at = λ s. rw (lt→ltb i slots.capacity h) refl }

pub push-Gives :
    {S E A : Type 0} (x : A) (v : Bounded A)
    → length v.elements < v.capacity
    → Gives {S = S} {E = E} (λ w. w ≡ record v { elements = v.elements ++ x ∷ [] }) (push x v)
unfolding push
push-Gives x v h = record { at = λ s. rw (lt→ltb (length v.elements) v.capacity h) refl }

module _ (kernel : MountKernel) where
  pub and_close-Gives :
      {A : Type 0} (Q : A → Type 0) (n : ℕ) (m : Guest kernel A)
      → Gives Q m
      → Gives Q (and_close kernel n m)
  unfolding and_close
  and_close-Gives Q n m h = record { at = h.at }

  pub or_close-Gives :
      {A : Type 0} (Q : A → Type 0) (n : ℕ) (m : Guest kernel A)
      → Gives Q m
      → Gives Q (or_close kernel n m)
  unfolding or_close
  or_close-Gives Q n m h = record { at = h.at }

pub ruleset step_rules = (gives_rules, and_close-Gives, or_close-Gives)
