-- ===== src/Paths/Order.antt =====
-- The order and the prefix relation of guest paths (crates/bubblebox/src/platform/linux/paths.rs).
use layer_cake.Prelude.{
  ◌≡◌, refl, sym, ap, ◌↔◌, true, List, [], ◌∷◌, ◌++◌, Ordering, Bytes, bytes_eq_iff, arith,
}
use Prim.Native.Nat.Ordering.{lt, eq, gt}
use layer_cake.Paths.Std.{
  Component, prefix, root_dir, cur_dir, parent_dir, normal, component_eq, cmp_bytes, rank, name_of,
  cmp_component, cmp_components,
}
use layer_cake.Paths.Guest.{GuestInner, guest_components, starts_with_loop, starts_with, cmp}

-- The laws of a comparison that agrees with equality.
pub record IsLawful {ℓ} {K : Type ℓ} (compare_by : K → K → Ordering) : Type ℓ where
  pub cmp_refl : (a : K) → compare_by a a ≡ eq
  pub eq_of_cmp : (a b : K) → compare_by a b ≡ eq → a ≡ b
  pub gt_of_lt : (a b : K) → compare_by a b ≡ lt → compare_by b a ≡ gt
  pub lt_of_gt : (a b : K) → compare_by a b ≡ gt → compare_by b a ≡ lt
  pub lt_trans : (a b c : K) → compare_by a b ≡ lt → compare_by b c ≡ lt → compare_by a c ≡ lt

cmp_bytes_refl : (a : Bytes) → cmp_bytes a a ≡ eq
unfolding cmp_bytes
cmp_bytes_refl [] = refl
cmp_bytes_refl (x ∷ xs) = ground (arith, cmp_bytes_refl xs)

cmp_bytes-eq : (a b : Bytes) → cmp_bytes a b ≡ eq → a ≡ b
unfolding cmp_bytes
cmp_bytes-eq [] [] h = refl
cmp_bytes-eq [] (y ∷ ys) h = cc
cmp_bytes-eq (x ∷ xs) [] h = cc
cmp_bytes-eq (x ∷ xs) (y ∷ ys) h = ground (arith, cmp_bytes-eq xs ys)

cmp_bytes-lt : (a b : Bytes) → cmp_bytes a b ≡ lt → cmp_bytes b a ≡ gt
unfolding cmp_bytes
cmp_bytes-lt [] [] h = cc
cmp_bytes-lt [] (y ∷ ys) h = refl
cmp_bytes-lt (x ∷ xs) [] h = cc
cmp_bytes-lt (x ∷ xs) (y ∷ ys) h = ground (arith, cmp_bytes-lt xs ys)

cmp_bytes-gt : (a b : Bytes) → cmp_bytes a b ≡ gt → cmp_bytes b a ≡ lt
unfolding cmp_bytes
cmp_bytes-gt [] [] h = cc
cmp_bytes-gt [] (y ∷ ys) h = cc
cmp_bytes-gt (x ∷ xs) [] h = refl
cmp_bytes-gt (x ∷ xs) (y ∷ ys) h = ground (arith, cmp_bytes-gt xs ys)

cmp_bytes_trans : (a b c : Bytes) → cmp_bytes a b ≡ lt → cmp_bytes b c ≡ lt → cmp_bytes a c ≡ lt
unfolding cmp_bytes
cmp_bytes_trans [] [] c h k = cc
cmp_bytes_trans [] (y ∷ ys) [] h k = cc
cmp_bytes_trans [] (y ∷ ys) (z ∷ zs) h k = refl
cmp_bytes_trans (x ∷ xs) [] c h k = cc
cmp_bytes_trans (x ∷ xs) (y ∷ ys) [] h k = cc
cmp_bytes_trans (x ∷ xs) (y ∷ ys) (z ∷ zs) h k = ground (arith, cmp_bytes_trans xs ys zs)

-- A component is its rank and its name.
component_ext : (a b : Component) → rank a ≡ rank b → name_of a ≡ name_of b → a ≡ b
component_ext prefix prefix h k = refl
component_ext root_dir root_dir h k = refl
component_ext cur_dir cur_dir h k = refl
component_ext parent_dir parent_dir h k = refl
component_ext (normal a) (normal b) h k = ap normal k
component_ext _ _ h k = absurd (omega arith)

cmp_component-IsLawful : IsLawful cmp_component
unfolding cmp_component
cmp_component-IsLawful = record {
  cmp_refl = λ a. ground (arith, cmp_bytes_refl (name_of a));
  eq_of_cmp = λ a b h. ground (arith, cmp_bytes-eq (name_of a) (name_of b), component_ext a b);
  gt_of_lt = λ a b h. ground (arith, cmp_bytes-lt (name_of a) (name_of b));
  lt_of_gt = λ a b h. ground (arith, cmp_bytes-gt (name_of a) (name_of b));
  lt_trans = λ a b c h k. ground (
    arith,
    cmp_bytes_trans (name_of a) (name_of b) (name_of c),
    cmp_bytes-eq (name_of a) (name_of b),
    cmp_bytes-eq (name_of b) (name_of c),
  );
}

component_eq_iff : (a b : Component) → (component_eq a b ≡ true) ↔ (a ≡ b)
unfolding component_eq
component_eq_iff prefix prefix = ((λ _. refl), λ _. refl)
component_eq_iff root_dir root_dir = ((λ _. refl), λ _. refl)
component_eq_iff cur_dir cur_dir = ((λ _. refl), λ _. refl)
component_eq_iff parent_dir parent_dir = ((λ _. refl), λ _. refl)
component_eq_iff (normal a) (normal b) = ground (arith, bytes_eq_iff a b)
component_eq_iff _ _ = ((λ h. cc), λ h. cc)

open cmp_component-IsLawful use {cmp_refl, eq_of_cmp, gt_of_lt, lt_of_gt, lt_trans}

cmp_components_refl : (a : List Component) → cmp_components a a ≡ eq
unfolding cmp_components
cmp_components_refl [] = refl
cmp_components_refl (x ∷ xs) = ground (arith, cmp_refl x, cmp_components_refl xs)

cmp_components-eq : (a b : List Component) → cmp_components a b ≡ eq → a ≡ b
unfolding cmp_components
cmp_components-eq [] [] h = refl
cmp_components-eq [] (y ∷ ys) h = cc
cmp_components-eq (x ∷ xs) [] h = cc
cmp_components-eq (x ∷ xs) (y ∷ ys) h = ground (arith, eq_of_cmp x y, cmp_components-eq xs ys)

cmp_components-lt : (a b : List Component) → cmp_components a b ≡ lt → cmp_components b a ≡ gt
unfolding cmp_components
cmp_components-lt [] [] h = cc
cmp_components-lt [] (y ∷ ys) h = refl
cmp_components-lt (x ∷ xs) [] h = cc
cmp_components-lt (x ∷ xs) (y ∷ ys) h =
    ground (arith, eq_of_cmp x y, cmp_refl x, gt_of_lt x y, cmp_components-lt xs ys)

cmp_components-gt : (a b : List Component) → cmp_components a b ≡ gt → cmp_components b a ≡ lt
unfolding cmp_components
cmp_components-gt [] [] h = cc
cmp_components-gt [] (y ∷ ys) h = cc
cmp_components-gt (x ∷ xs) [] h = refl
cmp_components-gt (x ∷ xs) (y ∷ ys) h =
    ground (arith, eq_of_cmp x y, cmp_refl x, lt_of_gt x y, cmp_components-gt xs ys)

cmp_components_trans :
    (a b c : List Component)
    → cmp_components a b ≡ lt
    → cmp_components b c ≡ lt
    → cmp_components a c ≡ lt
unfolding cmp_components
cmp_components_trans [] [] c h k = cc
cmp_components_trans [] (y ∷ ys) [] h k = cc
cmp_components_trans [] (y ∷ ys) (z ∷ zs) h k = refl
cmp_components_trans (x ∷ xs) [] c h k = cc
cmp_components_trans (x ∷ xs) (y ∷ ys) [] h k = cc
cmp_components_trans (x ∷ xs) (y ∷ ys) (z ∷ zs) h k =
    ground (arith, eq_of_cmp x y, eq_of_cmp y z, lt_trans x y z, cmp_components_trans xs ys zs)

-- The test of `starts_with` is the prefix relation on components.
starts_with_loop-prefix :
    (ls rs : List Component)
    → starts_with_loop ls rs ≡ true
    → (rest : List Component) × (ls ≡ rs ++ rest)
unfolding starts_with_loop
starts_with_loop-prefix [] [] h = ([], refl)
starts_with_loop-prefix [] (r ∷ rs) h = cc
starts_with_loop-prefix (l ∷ ls) [] h = (l ∷ ls, refl)
starts_with_loop-prefix (l ∷ ls) (r ∷ rs) h =
    let (rest, e) = starts_with_loop-prefix ls rs (ground arith) in
    (rest, ground (arith, component_eq_iff l r))

starts_with_loop-append : (rs rest : List Component) → starts_with_loop (rs ++ rest) rs ≡ true
unfolding starts_with_loop
starts_with_loop-append [] [] = refl
starts_with_loop-append [] (x ∷ xs) = refl
starts_with_loop-append (r ∷ rs) rest =
    ground (arith, component_eq_iff r r, starts_with_loop-append rs rest)

-- Between a path and one below it there are only paths below it.
starts_with_loop-between :
    (a b c : List Component)
    → cmp_components a b ≡ lt
    → cmp_components b c ≡ lt
    → starts_with_loop c a ≡ true
    → starts_with_loop b a ≡ true
unfolding cmp_components starts_with_loop
starts_with_loop-between [] [] c h k e = refl
starts_with_loop-between [] (y ∷ ys) c h k e = refl
starts_with_loop-between (x ∷ xs) [] c h k e = cc
starts_with_loop-between (x ∷ xs) (y ∷ ys) [] h k e = cc
starts_with_loop-between (x ∷ xs) (y ∷ ys) (z ∷ zs) h k e = ground (
  arith,
  component_eq_iff z x,
  component_eq_iff y x,
  eq_of_cmp x y,
  eq_of_cmp y z,
  gt_of_lt x y,
  starts_with_loop-between xs ys zs,
)

-- What stands below a path does not come before it.
starts_with_loop-not-lt :
    (a b : List Component) → cmp_components a b ≡ lt → starts_with_loop a b ≡ true → ⊥
unfolding cmp_components starts_with_loop
starts_with_loop-not-lt [] [] h e = cc
starts_with_loop-not-lt [] (y ∷ ys) h e = cc
starts_with_loop-not-lt (x ∷ xs) [] h e = cc
starts_with_loop-not-lt (x ∷ xs) (y ∷ ys) h e =
    ground (arith, component_eq_iff x y, cmp_refl x, starts_with_loop-not-lt xs ys)

-- `starts_with` holds exactly where the components of the other path begin those of this one.
pub starts_with_iff :
    (self other : GuestInner)
    → (starts_with self other ≡ true)
      ↔ ((rest : List Component) × (guest_components self ≡ guest_components other ++ rest))
unfolding starts_with
starts_with_iff self other = (
  starts_with_loop-prefix (guest_components self) (guest_components other),
  λ (rest, e). rw e (starts_with_loop-append (guest_components other) rest),
)

-- The order of guest paths is a strict total order up to equal components.
pub cmp-lt_trans : (a b c : GuestInner) → cmp a b ≡ lt → cmp b c ≡ lt → cmp a c ≡ lt
unfolding cmp
cmp-lt_trans a b c =
    cmp_components_trans (guest_components a) (guest_components b) (guest_components c)

pub cmp-lt_of_gt : (a b : GuestInner) → cmp a b ≡ gt → cmp b a ≡ lt
unfolding cmp
cmp-lt_of_gt a b = cmp_components-gt (guest_components a) (guest_components b)

pub cmp-gt_of_lt : (a b : GuestInner) → cmp a b ≡ lt → cmp b a ≡ gt
unfolding cmp
cmp-gt_of_lt a b = cmp_components-lt (guest_components a) (guest_components b)

pub cmp_refl_guest : (a : GuestInner) → cmp a a ≡ eq
unfolding cmp
cmp_refl_guest a = cmp_components_refl (guest_components a)

pub cmp-eq_components : (a b : GuestInner) → cmp a b ≡ eq → guest_components a ≡ guest_components b
unfolding cmp
cmp-eq_components a b = cmp_components-eq (guest_components a) (guest_components b)

-- Equal keys compare alike with every third key.
pub cmp-of_eq : (a b c : GuestInner) → cmp a b ≡ eq → cmp c b ≡ cmp c a
unfolding cmp
cmp-of_eq a b c h =
    ap (cmp_components (guest_components c))
      (sym (cmp_components-eq (guest_components a) (guest_components b) h))

-- Of three paths in order, if the last lies under the first, the middle one does too.
pub starts_with-between :
    (a b c : GuestInner)
    → cmp a b ≡ lt
    → cmp b c ≡ lt
    → starts_with c a ≡ true
    → starts_with b a ≡ true
unfolding cmp starts_with
starts_with-between a b c =
    starts_with_loop-between (guest_components a) (guest_components b) (guest_components c)

pub starts_with-not-lt : (a b : GuestInner) → cmp a b ≡ lt → starts_with a b ≡ true → ⊥
unfolding cmp starts_with
starts_with-not-lt a b = starts_with_loop-not-lt (guest_components a) (guest_components b)
