-- ===== src/SortedMap.antt =====
-- The ordered map that the program uses, `std::collections::BTreeMap`, as its entries in order.
-- The comparison need not tell keys apart that are spelled differently.
pub mod Laws
use layer_cake.Prelude.{◌≡◌, Option, none, some, List, [], ◌∷◌, Ordering, All}
use Prim.Native.Nat.Ordering.{lt, eq, gt}

module _ {ℓ κ} {K : Type ℓ} {V : Type κ} (cmp : K → K → Ordering) where
  -- `BTreeMap::insert`: the key that is there stays, its value is replaced.
  unfoldable pub insert : K → V → List (K × V) → List (K × V)
  insert k v [] = (k, v) ∷ []
  insert k v ((j, w) ∷ m) = elim (cmp k j) [
    | lt ↦ (k, v) ∷ (j, w) ∷ m
    | eq ↦ (j, v) ∷ m
    | gt ↦ (j, w) ∷ insert k v m
  ]

  unfoldable pub remove : K → List (K × V) → List (K × V)
  remove k [] = []
  remove k ((j, w) ∷ m) = elim (cmp k j) [ lt ↦ (j, w) ∷ m | eq ↦ m | gt ↦ (j, w) ∷ remove k m ]

  unfoldable pub lookup : K → List (K × V) → Option V
  lookup k [] = none
  lookup k ((j, w) ∷ m) = elim (cmp k j) [ lt ↦ none | eq ↦ some w | gt ↦ lookup k m ]

  -- The keys rise strictly.
  abbrev pub IsSorted : List (K × V) → Type (ℓ ⊔ κ)
  IsSorted [] = Unit
  IsSorted (e ∷ m) = All (λ f. cmp e.0 f.0 ≡ lt) m × IsSorted m
