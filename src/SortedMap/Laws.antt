-- ===== src/SortedMap/Laws.antt =====
-- `insert` and `remove` keep the entries in order, and change the value at one key.
use layer_cake.Prelude.{◌≡◌, refl, none, some, List, [], ◌∷◌, Ordering, All, arith}
use Prim.Native.Nat.Ordering.{lt, eq, gt}
use layer_cake.SortedMap.{insert, remove, lookup, IsSorted}

-- What a total order on keys satisfies, where equal keys compare alike.
pub record IsOrder {ℓ} {K : Type ℓ} (cmp : K → K → Ordering) : Type ℓ where
  pub same : (a : K) → cmp a a ≡ eq
  pub gt_of_lt : (a b : K) → cmp a b ≡ lt → cmp b a ≡ gt
  pub lt_of_gt : (a b : K) → cmp a b ≡ gt → cmp b a ≡ lt
  pub lt_trans : (a b c : K) → cmp a b ≡ lt → cmp b c ≡ lt → cmp a c ≡ lt
  pub alike : (a b c : K) → cmp a b ≡ eq → cmp c b ≡ cmp c a

module _ {ℓ κ} {K : Type ℓ} {V : Type κ} (cmp : K → K → Ordering) (o : IsOrder cmp) where
  open o use {same, gt_of_lt, lt_of_gt, lt_trans, alike}

  All-lt_trans :
      (a b : K) (m : List (K × V))
      → cmp a b ≡ lt
      → All (λ f. cmp b f.0 ≡ lt) m
      → All (λ f. cmp a f.0 ≡ lt) m
  All-lt_trans a b [] h hs = tt
  All-lt_trans a b ((k, v) ∷ m) h hs = (lt_trans a b k h hs.0, All-lt_trans a b m h hs.1)

  insert-All :
      (a k : K) (v : V) (m : List (K × V))
      → cmp a k ≡ lt
      → All (λ f. cmp a f.0 ≡ lt) m
      → All (λ f. cmp a f.0 ≡ lt) (insert cmp k v m)
  unfolding insert
  insert-All a k v [] h hs = (h, tt)
  insert-All a k v ((j, w) ∷ m) h hs = ground (arith, insert-All a k v m h hs.1)

  pub insert-IsSorted :
      (k : K) (v : V) (m : List (K × V)) → IsSorted cmp m → IsSorted cmp (insert cmp k v m)
  unfolding insert
  insert-IsSorted k v [] h = (tt, tt)
  insert-IsSorted k v ((j, w) ∷ m) h =
      ground
        (arith, insert-IsSorted k v m h.1, All-lt_trans k j m, insert-All j k v m, lt_of_gt k j)

  remove-All :
      (a k : K) (m : List (K × V))
      → All (λ f. cmp a f.0 ≡ lt) m
      → All (λ f. cmp a f.0 ≡ lt) (remove cmp k m)
  unfolding remove
  remove-All a k [] hs = tt
  remove-All a k ((j, w) ∷ m) hs = ground (arith, remove-All a k m hs.1)

  pub remove-IsSorted : (k : K) (m : List (K × V)) → IsSorted cmp m → IsSorted cmp (remove cmp k m)
  unfolding remove
  remove-IsSorted k [] h = tt
  remove-IsSorted k ((j, w) ∷ m) h = ground (arith, remove-IsSorted k m h.1, remove-All j k m)

  -- After an insertion the key reads as the new value, and every other key as before.
  pub lookup-insert :
      (k q : K) (v : V) (m : List (K × V))
      → IsSorted cmp m
      → lookup cmp q (insert cmp k v m) ≡ elim (cmp q k) [ eq ↦ some v | _ ↦ lookup cmp q m ]
  unfolding lookup insert
  lookup-insert k q v [] h = refl
  lookup-insert k q v ((j, w) ∷ m) h = ground (
    arith,
    lookup-insert k q v m h.1,
    alike k j q,
    alike q k j,
    lt_trans q k j,
    lt_of_gt k j,
    lt_of_gt q k,
    lt_trans j k q,
    gt_of_lt j q,
    gt_of_lt k q,
    gt_of_lt q k,
  )

  lookup-before :
      (q a : K) (m : List (K × V))
      → (cmp q a ≡ gt → ⊥)
      → All (λ f. cmp a f.0 ≡ lt) m
      → lookup cmp q m ≡ none
  unfolding lookup
  lookup-before q a [] y hs = refl
  lookup-before q a ((j, w) ∷ m) y hs = ground (
    arith,
    lt_trans q a j,
    alike q a j,
    gt_of_lt a j,
    lt_of_gt j q,
    gt_of_lt j q,
    lt_of_gt q j,
    gt_of_lt q j,
    alike a q j,
    alike q j a,
  )

  -- After a removal the key reads as absent, and every other key as before.
  pub lookup-remove :
      (k q : K) (m : List (K × V))
      → IsSorted cmp m
      → lookup cmp q (remove cmp k m) ≡ elim (cmp q k) [ eq ↦ none | _ ↦ lookup cmp q m ]
  unfolding lookup remove
  lookup-remove k q [] h = ground arith
  lookup-remove k q ((j, w) ∷ m) h = ground (
    arith,
    lookup-remove k q m h.1,
    lookup-before q j m,
    alike k j q,
    alike q k j,
    alike q j k,
    alike q k k,
    same k,
    lt_trans q k j,
    lt_of_gt k j,
    gt_of_lt q k,
    gt_of_lt k q,
    lt_of_gt q j,
    lt_trans j k q,
    lt_trans k j q,
    gt_of_lt j q,
    gt_of_lt q j,
  )
