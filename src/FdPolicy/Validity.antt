-- ===== src/FdPolicy/Validity.antt =====
-- What `is_valid_fd_policy` of policy/fd.rs gives the loop that applies the policy.
use mathlib.Core.Path.{subst}
use layer_cake.Prelude.{
  ℕ, suc, ◌≤◌, ◌≡◌, ◌≢◌, ap, sym, ◌∙◌, All, All-map, true, false, none, some, List, [], ◌∷◌,
  Ordering, inl, inr, ◌⊎◌, arith,
}
use layer_cake.Prelude.Int.{pos, negsuc, cmp, IsSigned}
use layer_cake.SortedMap.{lookup, IsSorted}
use layer_cake.FdPolicy.{
  RawFd, Action, ignore, map, Policy, fd_eq, sources, contains, valid_loop, is_valid_fd_policy,
}
use layer_cake.FdPolicy.Table.{Rising, Separate, lookup-nothing}

-- A valid policy has no negative key, and maps no source.
lookup-contains :
    (l : Policy) (k src : ℕ)
    → lookup cmp (pos k) l ≡ some (map src)
    → contains (sources l) (pos src) ≡ true
unfolding lookup cmp contains sources fd_eq
lookup-contains [] k src e = cc
lookup-contains ((pos n, ignore) ∷ l) k src e = ground (arith, lookup-contains l k src)
lookup-contains ((pos n, map source) ∷ l) k src e = ground (arith, lookup-contains l k src)
lookup-contains ((negsuc n, ignore) ∷ l) k src e = ground (arith, lookup-contains l k src)
lookup-contains ((negsuc n, map source) ∷ l) k src e = ground (arith, lookup-contains l k src)

valid_loop-rest :
    (ss : List RawFd) (fd : RawFd) (a : Action) (l : Policy)
    → valid_loop ss ((fd, a) ∷ l) ≡ true
    → valid_loop ss l ≡ true
unfolding valid_loop
valid_loop-rest ss fd a l e = ground arith

valid_loop-not_source :
    (ss : List RawFd) (fd : RawFd) (source : ℕ) (l : Policy)
    → valid_loop ss ((fd, map source) ∷ l) ≡ true
    → contains ss fd ≡ false
unfolding valid_loop
valid_loop-not_source ss fd source l e = ground arith

valid_loop-not_negative :
    (ss : List RawFd) (n : ℕ) (a : Action) (l : Policy) → valid_loop ss ((negsuc n, a) ∷ l) ≢ true
unfolding valid_loop
valid_loop-not_negative ss n a l e = cc

true≢false : true ≢ false
true≢false e = cc

pub valid_loop-Separate :
    (ss : List RawFd) (l : Policy)
    → ((x : RawFd) → contains (sources l) x ≡ true → contains ss x ≡ true)
    → valid_loop ss l ≡ true
    → Separate l
unfolding sources contains
valid_loop-Separate ss [] sub e = tt
valid_loop-Separate ss ((fd, ignore) ∷ l) sub e =
    valid_loop-Separate ss l sub (valid_loop-rest ss fd ignore l e)
valid_loop-Separate ss ((fd, map source) ∷ l) sub e = (
  λ k src q same. true≢false (
      sym (sub (pos src) (ground (arith, lookup-contains l k src q)))
      ∙ ap (contains ss) same
      ∙ valid_loop-not_source ss fd source l e),
  valid_loop-Separate ss l (λ x q. sub x (ground (arith, q)))
      (valid_loop-rest ss fd (map source) l e),
)

valid_loop-lookup :
    (ss : List RawFd) (l : Policy) (k src : ℕ)
    → valid_loop ss l ≡ true
    → lookup cmp (pos k) l ≡ some (map src)
    → contains ss (pos k) ≡ false
unfolding lookup cmp
valid_loop-lookup ss [] k src e q = cc
valid_loop-lookup ss ((pos n, ignore) ∷ l) k src e q =
    ground (arith, valid_loop-lookup ss l k src (valid_loop-rest ss (pos n) ignore l e))
valid_loop-lookup ss ((pos n, map source) ∷ l) k src e q = ground (
  arith,
  valid_loop-not_source ss (pos n) source l e,
  valid_loop-lookup ss l k src (valid_loop-rest ss (pos n) (map source) l e),
)
valid_loop-lookup ss ((negsuc n, a) ∷ l) k src e q = absurd (valid_loop-not_negative ss n a l e)

-- The file descriptors that a policy maps from.
abbrev pub mapped_sources : Policy → List ℕ
mapped_sources [] = []
mapped_sources ((fd, map source) ∷ rest) = source ∷ mapped_sources rest
mapped_sources ((fd, ignore) ∷ rest) = mapped_sources rest

lookup-cases :
    (k : RawFd) (fd : RawFd) (a v : Action) (l : Policy)
    → lookup cmp k ((fd, a) ∷ l) ≡ some v
    → (a ≡ v) ⊎ (lookup cmp k l ≡ some v)
unfolding lookup
lookup-cases k fd a v l e = ordered (cmp k fd) e
  where
    ordered :
        (c : Ordering)
        → elim c [ Ordering.lt ↦ none | Ordering.eq ↦ some a | Ordering.gt ↦ lookup cmp k l ]
          ≡ some v
        → (a ≡ v) ⊎ (lookup cmp k l ≡ some v)
    ordered Ordering.lt q = cc
    ordered Ordering.eq q = inl cc
    ordered Ordering.gt q = inr q

pub All-mapped_sources :
    (P : ℕ → Type 0) (l : Policy) (k src : ℕ)
    → All P (mapped_sources l)
    → lookup cmp (pos k) l ≡ some (map src)
    → P src
All-mapped_sources P [] k src a q = absurd (nothing (sym (lookup-nothing k) ∙ q))
  where
    nothing : none ≢ some (map src)
    nothing e = cc
All-mapped_sources P ((fd, ignore) ∷ l) k src a q =
    elim (lookup-cases (pos k) fd ignore (map src) l q) [
      | inl e ↦ cc
      | inr e ↦ All-mapped_sources P l k src a e
    ]
All-mapped_sources P ((fd, map source) ∷ l) k src a q =
    elim (lookup-cases (pos k) fd (map source) (map src) l q) [
      | inl e ↦ subst P (map-inj e) a.0
      | inr e ↦ All-mapped_sources P l k src a.1 e
    ]
  where
    map-inj : {a b : ℕ} → map a ≡ map b → a ≡ b
    map-inj e = cc

-- A key is not below `start`, or is negative.
abbrev pub NotBelow : ℕ → RawFd → Type 0
NotBelow start (pos n) = start ≤ n
NotBelow start (negsuc n) = Unit

NotBelow-of_lt : (n : ℕ) (fd : RawFd) → cmp (pos n) fd ≡ Ordering.lt → NotBelow (suc n) fd
unfolding cmp
NotBelow-of_lt n (pos m) e = ground arith
NotBelow-of_lt n (negsuc m) e = tt

NotBelow-zero : (fd : RawFd) → NotBelow 0 fd
NotBelow-zero (pos m) = omega arith
NotBelow-zero (negsuc m) = tt

valid_loop-Rising :
    (ss : List RawFd) (l : Policy) (start : ℕ)
    → valid_loop ss l ≡ true
    → IsSorted cmp l
    → All (λ e. IsSigned 32 e.0) l
    → All (λ e. NotBelow start e.0) l
    → Rising start l
valid_loop-Rising ss [] start e o i b = tt
valid_loop-Rising ss ((pos n, a) ∷ l) start e o i b = (
  b.0,
  i.0,
  valid_loop-Rising ss l (suc n) (valid_loop-rest ss (pos n) a l e) o.1 i.1
      (All-map _ _ (λ x q. NotBelow-of_lt n x.0 q) l o.0),
)
valid_loop-Rising ss ((negsuc n, a) ∷ l) start e o i b = absurd (valid_loop-not_negative ss n a l e)

module _ (policy : Policy) (valid : is_valid_fd_policy policy ≡ true) where
  pub is_valid-Separate : Separate policy
  unfolding is_valid_fd_policy
  is_valid-Separate = valid_loop-Separate (sources policy) policy (λ x q. q) valid

  pub is_valid-Rising : IsSorted cmp policy → All (λ e. IsSigned 32 e.0) policy → Rising 0 policy
  unfolding is_valid_fd_policy
  is_valid-Rising o i = valid_loop-Rising (sources policy) policy 0 valid o i (All-of_all policy)
    where
      All-of_all : (l : Policy) → All (λ e. NotBelow 0 e.0) l
      All-of_all [] = tt
      All-of_all (e ∷ l) = (NotBelow-zero e.0, All-of_all l)

  -- A source is not mapped.
  pub is_valid-source :
      (k src x : ℕ)
      → lookup cmp (pos k) policy ≡ some (map src)
      → lookup cmp (pos src) policy ≢ some (map x)
  unfolding is_valid_fd_policy
  is_valid-source k src x e q = true≢false (
      sym (lookup-contains policy k src e)
      ∙ valid_loop-lookup (sources policy) policy src x valid q)
