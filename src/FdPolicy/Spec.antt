-- ===== src/FdPolicy/Spec.antt =====
-- The rules that the documentation of `is_valid_fd_policy` of policy/fd.rs lists.
use layer_cake.Prelude.{
  ℕ, ◌≡◌, ◌≢◌, ◌↔◌, refl, ap, sym, ◌∙◌, true, false, List, [], ◌∷◌, All, All-map, Bool-cases, inl,
  inr, arith,
}
use layer_cake.Prelude.Int.{pos, negsuc}
use layer_cake.FdPolicy.{
  RawFd, ignore, map, Policy, fd_eq, sources, contains, valid_loop, is_valid_fd_policy,
}

abbrev pub IsNatural : RawFd → Type 0
IsNatural (pos n) = Unit
IsNatural (negsuc n) = ⊥

-- No entry maps from `fd`.
abbrev pub IsNoSource : Policy → RawFd → Type 0
IsNoSource policy fd = All (λ f. (x : ℕ) → f.1 ≡ map x → pos x ≢ fd) policy

-- No number is negative, and no source of a mapping is itself mapped.
abbrev pub IsValid : Policy → Type 0
IsValid policy =
    All (λ e. IsNatural e.0 × ((src : ℕ) → e.1 ≡ map src → IsNoSource policy e.0)) policy

fd_eq_iff : (a b : RawFd) → (fd_eq a b ≡ true) ↔ (a ≡ b)
unfolding fd_eq
fd_eq_iff (pos a) (pos b) = ground arith
fd_eq_iff (negsuc a) (negsuc b) = ground arith
fd_eq_iff (pos a) (negsuc b) = ((λ h. cc), λ h. cc)
fd_eq_iff (negsuc a) (pos b) = ((λ h. cc), λ h. cc)

map-inj : {a b : ℕ} → map a ≡ map b → a ≡ b
map-inj e = cc

true≢false : true ≢ false
true≢false e = cc

contains_iff : (l : Policy) (fd : RawFd) → (contains (sources l) fd ≡ false) ↔ IsNoSource l fd
unfolding contains sources
contains_iff [] fd = ((λ _. tt), λ _. refl)
contains_iff ((k, ignore) ∷ l) fd =
    ((λ h. ((λ x e. cc), (contains_iff l fd).0 h)), λ h. (contains_iff l fd).1 h.1)
contains_iff ((k, map src) ∷ l) fd = (
  λ h. (
    (λ x e same. apart (ground (arith, h)) (ap pos (map-inj e) ∙ same)),
    (contains_iff l fd).0 (ground (arith, h)),
  ),
  λ h. ground (arith, (contains_iff l fd).1 h.1, different (h.0 src refl)),
)
  where
    apart : fd_eq (pos src) fd ≡ false → pos src ≢ fd
    apart h same = true≢false (sym ((fd_eq_iff (pos src) fd).1 same) ∙ h)

    different : pos src ≢ fd → fd_eq (pos src) fd ≡ false
    different h = elim (Bool-cases (fd_eq (pos src) fd)) [
      | inl e ↦ absurd (h ((fd_eq_iff (pos src) fd).0 e))
      | inr e ↦ e
    ]

valid_loop_iff :
    (ss : List RawFd) (l : Policy)
    → (valid_loop ss l ≡ true)
      ↔ All (λ e. IsNatural e.0 × ((src : ℕ) → e.1 ≡ map src → contains ss e.0 ≡ false)) l
unfolding valid_loop
valid_loop_iff ss [] = ((λ _. tt), λ _. refl)
valid_loop_iff ss ((negsuc n, a) ∷ l) = ((λ h. cc), λ h. absurd h.0.0)
valid_loop_iff ss ((pos n, ignore) ∷ l) =
    (λ h. ((tt, λ src e. cc), (valid_loop_iff ss l).0 h), λ h. (valid_loop_iff ss l).1 h.1)
valid_loop_iff ss ((pos n, map src) ∷ l) = (
  λ h. ((tt, λ x e. ground (arith, h)), (valid_loop_iff ss l).0 (ground (arith, h))),
  λ h. ground (arith, h.0.1 src refl, (valid_loop_iff ss l).1 h.1),
)

-- `is_valid_fd_policy` accepts exactly the policies in which no number is negative and no source
-- of a mapping is itself mapped.
pub is_valid_fd_policy_iff : (policy : Policy) → (is_valid_fd_policy policy ≡ true) ↔ IsValid policy
unfolding is_valid_fd_policy
is_valid_fd_policy_iff policy = (
  λ h.
      All-map _ _ (λ e r. (r.0, λ src q. (contains_iff policy e.0).0 (r.1 src q))) policy
        ((valid_loop_iff (sources policy) policy).0 h),
  λ h.
      (valid_loop_iff (sources policy) policy).1
        (All-map _ _ (λ e r. (r.0, λ src q. (contains_iff policy e.0).1 (r.1 src q))) policy h),
)
