-- ===== src/FdPolicy/Deferred.antt =====
-- The mapping onto the guest pipe, which the loop puts off.
use layer_cake.Prelude.{
  ℕ, suc, ◌<◌, ◌≡◌, ◌≢◌, refl, ap, sym, ◌∙◌, Option, some, [], ◌∷◌, ◌==◌, if◌then◌else◌, inl, inr,
  arith,
}
use layer_cake.Prelude.Int.{pos, negsuc, cmp}
use layer_cake.SortedMap.{lookup}
use layer_cake.FdPolicy.{Action, ignore, map, Policy}
use layer_cake.FdPolicy.Table.{
  Rising, four_ways, lookup-nothing, lookup-before, lookup-here, lookup-after,
}

-- The mapping onto the pipe.
abbrev pub deferred_by : ℕ → ℕ → Action → Option ℕ → Option ℕ
deferred_by pipe n ignore d = d
deferred_by pipe n (map source) d = if pipe == n then some source else d

abbrev pub deferred_all : ℕ → Policy → Option ℕ → Option ℕ
deferred_all pipe [] d = d
deferred_all pipe ((pos n, a) ∷ rest) d = deferred_all pipe rest (deferred_by pipe n a d)
deferred_all pipe ((negsuc n, a) ∷ rest) d = d

abbrev pub source_of : Option Action → Option ℕ → Option ℕ
source_of (some (map source)) d = some source
source_of _ d = d

deferred_all-past :
    (pipe start : ℕ) (l : Policy) (d : Option ℕ)
    → pipe < start
    → Rising start l
    → deferred_all pipe l d ≡ d
deferred_all-past pipe start [] d h r = refl
deferred_all-past pipe start ((pos n, ignore) ∷ l) d h r =
    deferred_all-past pipe (suc n) l d (omega (arith, r.0)) r.2
deferred_all-past pipe start ((pos n, map source) ∷ l) d h r =
    ground (arith, r.0, deferred_all-past pipe (suc n) l d (omega (arith, r.0)) r.2)
deferred_all-past pipe start ((negsuc n, a) ∷ l) d h r = absurd r

deferred_by-other : (pipe n : ℕ) (a : Action) (d : Option ℕ) → pipe ≢ n → deferred_by pipe n a d ≡ d
deferred_by-other pipe n ignore d h = refl
deferred_by-other pipe n (map source) d h = ground arith

deferred_by-here :
    (pipe n : ℕ) (a : Action) (d : Option ℕ)
    → pipe ≡ n
    → deferred_by pipe n a d ≡ source_of (some a) d
deferred_by-here pipe n ignore d h = refl
deferred_by-here pipe n (map source) d h = ground arith

pub deferred_all-lookup :
    (pipe start : ℕ) (l : Policy) (d : Option ℕ)
    → Rising start l
    → deferred_all pipe l d ≡ source_of (lookup cmp (pos pipe) l) d
deferred_all-lookup pipe start [] d r = ap (λ o. source_of o d) (sym (lookup-nothing pipe))
deferred_all-lookup pipe start ((negsuc n, a) ∷ l) d r = absurd r
deferred_all-lookup pipe start ((pos n, a) ∷ l) d r = elim (four_ways pipe 0 n (omega arith)) [
  | inl below ↦ absurd (omega arith)
  | inr (inl (le, before)) ↦
      deferred_all-past pipe (suc n) l _ (omega arith) r.2
      ∙ deferred_by-other pipe n a d (omega arith)
      ∙ ap (λ o. source_of o d) (sym (lookup-before n pipe a l before))
  | inr (inr (inl here)) ↦
      deferred_all-past pipe (suc n) l _ (omega arith) r.2
      ∙ deferred_by-here pipe n a d here
      ∙ ap (λ o. source_of o d) (sym (lookup-here n pipe a l here))
  | inr (inr (inr after)) ↦
      ap (deferred_all pipe l) (deferred_by-other pipe n a d (omega arith))
      ∙ deferred_all-lookup pipe (suc n) l d r.2
      ∙ ap (λ o. source_of o d) (sym (lookup-after n pipe a l after))
]
