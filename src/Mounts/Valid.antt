-- ===== src/Mounts/Valid.antt =====
-- What `is_valid_mount_tree` decides: crates/bubblebox/src/platform/linux/policy/mounts.rs.
use layer_cake.Prelude.{
  ℕ, zero, suc, ◌+◌, ◌≡◌, ◌≢◌, refl, ap, ◌∙◌, Bool, true, false, none, some, [], ◌∷◌, ◌⊎◌, inl, inr,
  Bool-cases, Option-cases, get_elem?, All, All-map, All-get, All-of_get, arith,
}
use Prim.Native.Nat.Ordering.{lt}
use mathlib.Core.Path.{subst}
use mathlib.Core.Logic.{◌↔◌}
use layer_cake.Paths.Guest.{GuestInner, starts_with, cmp}
use layer_cake.Paths.Order.{starts_with-between, starts_with-not-lt}
use layer_cake.SortedMap.{IsSorted}
use layer_cake.Mounts.{Mount, is_synthetic}
use layer_cake.Mounts.Validate.{
  Entries, Stack, host_mounts, enter, unwind, validate_loop, is_valid_mount_tree,
}

-- No mount lies under a mount that is not synthetic.
abbrev pub NoneUnderHost : Entries → Type 0
NoneUnderHost mounts =
    (i j : ℕ) (a b : GuestInner × Mount)
    → get_elem? mounts i ≡ some a
    → get_elem? mounts j ≡ some b
    → i ≢ j
    → starts_with b.0 a.0 ≡ true
    → is_synthetic a.1 ≡ true

-- The host mounts of all entries.
unfoldable pub total : Entries → ℕ
total [] = 0
total ((path, m) ∷ rest) = host_mounts m.inner + total rest

abbrev Allows : GuestInner × Mount → GuestInner × Mount → Type 0
Allows a b = starts_with b.0 a.0 ≡ true → is_synthetic a.1 ≡ true

-- The same for neighbours, and for every two entries in order.
abbrev Adjacent : Entries → Type 0
Adjacent [] = Unit
Adjacent (x ∷ []) = Unit
Adjacent (x ∷ y ∷ m) = Allows x y × Adjacent (y ∷ m)

abbrev Ordered : Entries → Type 0
Ordered [] = Unit
Ordered (x ∷ m) = All (Allows x) m × Ordered m

abbrev top : GuestInner × Mount → GuestInner × Bool
top x = (x.0, is_synthetic x.1)

-- Only the top of the stack decides whether an entry is let in.
enter-top :
    (x y : GuestInner × Mount) (stack : Stack)
    → ((s : Stack) × (enter y.0 (top x ∷ stack) ≡ some s) × Allows x y)
      ⊎ ((enter y.0 (top x ∷ stack) ≡ none)
          × (starts_with y.0 x.0 ≡ true)
          × (is_synthetic x.1 ≡ false))
unfolding enter
enter-top x y stack = elim (Bool-cases (starts_with y.0 x.0)) [
  | inr p ↦ inl (unwind y.0 (top x ∷ stack), rw p, λ h. cc)
  | inl p ↦ elim (Bool-cases (is_synthetic x.1)) [
    | inl q ↦ inl (top x ∷ stack, rw (p, q), λ _. q)
    | inr q ↦ inr (rw (p, q), p, q)
  ]
]

validate_loop_sound :
    (x : GuestInner × Mount) (m : Entries) (stack : Stack) (count n : ℕ)
    → validate_loop (top x ∷ stack) count m ≡ some n
    → Adjacent (x ∷ m) × (n ≡ count + total m)
unfolding validate_loop total
validate_loop_sound x [] stack count n h = (tt, ground arith)
validate_loop_sound x (y ∷ m) stack count n h = elim (enter-top x y stack) [
  | inr (e, _, _) ↦ cc (rw (e, validate_loop) at h)
  | inl (s, e, ok) ↦
      let (adjacent, sum) =
        validate_loop_sound y m s (count + host_mounts y.1.inner) n (rw (e, validate_loop) at h) in
      ((ok, adjacent), omega (arith, sum))
]

validate_loop_complete :
    (x : GuestInner × Mount) (m : Entries) (stack : Stack) (count : ℕ)
    → validate_loop (top x ∷ stack) count m ≡ none
    → ¬ Adjacent (x ∷ m)
unfolding validate_loop
validate_loop_complete x [] stack count h = cc
validate_loop_complete x (y ∷ m) stack count h = λ (allows, adjacent). elim (enter-top x y stack) [
  | inr (_, p, q) ↦ cc (allows p)
  | inl (s, e, _) ↦
      validate_loop_complete y m s (count + host_mounts y.1.inner) (rw (e, validate_loop) at h)
        adjacent
]

pub is_valid_mount_tree_sound :
    (m : Entries) (n : ℕ) → is_valid_mount_tree m ≡ some n → Adjacent m × (n ≡ total m)
unfolding is_valid_mount_tree enter total
is_valid_mount_tree_sound [] n h = (tt, ground arith)
is_valid_mount_tree_sound (x ∷ m) n h =
    let (adjacent, sum) = validate_loop_sound x m [] (0 + host_mounts x.1.inner) n h in
    (adjacent, omega (arith, sum))

is_valid_mount_tree_complete : (m : Entries) → is_valid_mount_tree m ≡ none → ¬ Adjacent m
unfolding is_valid_mount_tree enter
is_valid_mount_tree_complete [] h = cc
is_valid_mount_tree_complete (x ∷ m) h = validate_loop_complete x m [] (0 + host_mounts x.1.inner) h

-- In order, an entry that lets its successor in lets in everything behind it.
Allows-behind :
    (x y : GuestInner × Mount) (m : Entries)
    → cmp x.0 y.0 ≡ lt
    → Allows x y
    → All (λ f. cmp y.0 f.0 ≡ lt) m
    → All (Allows x) m
Allows-behind x y m p h hs =
    All-map (λ f. cmp y.0 f.0 ≡ lt) (Allows x) (λ f q e. h (starts_with-between x.0 y.0 f.0 p q e))
      m hs

Ordered-of_Adjacent : (m : Entries) → IsSorted cmp m → Adjacent m → Ordered m
Ordered-of_Adjacent [] s h = tt
Ordered-of_Adjacent (x ∷ []) s h = (tt, tt)
Ordered-of_Adjacent (x ∷ y ∷ m) s h =
    ((h.0, Allows-behind x y m s.0.0 h.0 s.1.0), Ordered-of_Adjacent (y ∷ m) s.1 h.1)

Adjacent-of_Ordered : (m : Entries) → Ordered m → Adjacent m
Adjacent-of_Ordered [] h = tt
Adjacent-of_Ordered (x ∷ []) h = tt
Adjacent-of_Ordered (x ∷ y ∷ m) h = (h.0.0, Adjacent-of_Ordered (y ∷ m) h.1)

-- An entry does not lie under a later one.
NoneUnderHost-of_Ordered : (m : Entries) → IsSorted cmp m → Ordered m → NoneUnderHost m
NoneUnderHost-of_Ordered [] s h i j a b p q ne e = cc
NoneUnderHost-of_Ordered (x ∷ m) s h zero zero a b p q ne e = absurd (ne refl)
NoneUnderHost-of_Ordered (x ∷ m) s h zero (suc j) a b p q ne e =
    let r : x ≡ a = cc in subst (λ t. Allows t b) r (All-get (Allows x) m j h.0 q) e
NoneUnderHost-of_Ordered (x ∷ m) s h (suc i) zero a b p q ne e =
    let r : x ≡ b = cc in
    absurd (
      starts_with-not-lt b.0 a.0
        (subst (λ t. cmp t.0 a.0 ≡ lt) r (All-get (λ f. cmp x.0 f.0 ≡ lt) m i s.0 p)) e)
NoneUnderHost-of_Ordered (x ∷ m) s h (suc i) (suc j) a b p q ne e =
    NoneUnderHost-of_Ordered m s.1 h.1 i j a b p q (λ t. ne (ap suc t)) e

Ordered-of_NoneUnderHost : (m : Entries) → NoneUnderHost m → Ordered m
Ordered-of_NoneUnderHost [] h = tt
Ordered-of_NoneUnderHost (x ∷ m) h = (
  All-of_get (Allows x) m (λ j b q. h 0 (suc j) x b refl q (λ t. absurd (omega arith))),
  Ordered-of_NoneUnderHost m (λ i j a b p q ne. h (suc i) (suc j) a b p q (λ t. ne (omega arith))),
)

-- For a tree in the order of its paths, `is_valid_mount_tree` returns the sum of the host mounts of
-- all overlays exactly if no mount lies under a mount that is not synthetic.
pub is_valid_mount_tree_iff :
    (m : Entries) → IsSorted cmp m → (is_valid_mount_tree m ≡ some (total m)) ↔ NoneUnderHost m
is_valid_mount_tree_iff m s = (
  λ h.
      NoneUnderHost-of_Ordered m s
        (Ordered-of_Adjacent m s (is_valid_mount_tree_sound m (total m) h).0),
  λ h. elim (Option-cases (is_valid_mount_tree m)) [
    | inl e ↦
        absurd
          (is_valid_mount_tree_complete m e (Adjacent-of_Ordered m (Ordered-of_NoneUnderHost m h)))
    | inr (n, e) ↦ e ∙ ap some (is_valid_mount_tree_sound m n e).1
  ],
)

-- Either outcome, read backwards.
pub is_valid_mount_tree-some :
    (m : Entries) (n : ℕ)
    → IsSorted cmp m
    → is_valid_mount_tree m ≡ some n
    → NoneUnderHost m × (n ≡ total m)
is_valid_mount_tree-some m n s h =
    let (adjacent, sum) = is_valid_mount_tree_sound m n h in
    (NoneUnderHost-of_Ordered m s (Ordered-of_Adjacent m s adjacent), sum)
