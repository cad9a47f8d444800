-- ===== src/Paths/Names.antt =====
-- The pieces of a path, and `PathBuf::push` of a name (`std::path`, as Paths/Std.antt has it).
use layer_cake.Prelude.{
  ℕ, ◌≡◌, refl, sym, ap, ◌∙◌, ◌≢◌, true, false, List, [], ◌∷◌, ◌++◌, append_assoc, append-nil, ◌==◌,
  if◌then◌else◌, Bool-cases, ◌⊎◌, inl, inr, Bytes, bytes_eq, All, All-append, arith,
}
use mathlib.Core.Path.{subst}
use layer_cake.Paths.Std.{
  Component, root_dir, parent_dir, normal, slash, dot, is_dot, is_absolute, split_slash, cons_head,
  piece, pieces, components, push, needs_separator,
}

-- A piece that stands for itself: it is not empty, `.` or `..`, and holds no slash.
pub record IsName (s : Bytes) : Type 0 where
  pub as_piece : piece s ≡ normal s ∷ []
  pub unsplit : split_slash s ≡ s ∷ []

abbrev pub IsNameOrParent : Component → Type 0
IsNameOrParent (normal s) = IsName s
IsNameOrParent parent_dir = Unit
IsNameOrParent _ = ⊥

cons_head-append :
    (c : ℕ) (ss ts : List Bytes) → ss ≢ [] → cons_head c (ss ++ ts) ≡ cons_head c ss ++ ts
cons_head-append c [] ts h = absurd (h refl)
cons_head-append c (s ∷ ss) ts h = refl

cons_head-ne-nil : (c : ℕ) (ss : List Bytes) → cons_head c ss ≢ []
cons_head-ne-nil c [] = λ e. cc
cons_head-ne-nil c (s ∷ ss) = λ e. cc

split_slash-ne-nil : (xs : Bytes) → split_slash xs ≢ []
unfolding split_slash
split_slash-ne-nil [] = λ e. cc
split_slash-ne-nil (c ∷ cs) = elim (Bool-cases (c == slash)) [
  | inl e ↦ rw e (λ h. cc)
  | inr e ↦ rw e (cons_head-ne-nil c (split_slash cs))
]

split_slash-append :
    (xs ys : Bytes) → split_slash (xs ++ (slash ∷ ys)) ≡ split_slash xs ++ split_slash ys
unfolding split_slash
split_slash-append [] ys = refl
split_slash-append (c ∷ cs) ys = elim (Bool-cases (c == slash)) [
  | inl e ↦ rw e (ap (λ t. [] ∷ t) (split_slash-append cs ys))
  | inr e ↦ rw e (
      ap (cons_head c) (split_slash-append cs ys)
      ∙ cons_head-append c (split_slash cs) (split_slash ys) (split_slash-ne-nil cs))
]

pieces-append : (ss ts : List Bytes) → pieces (ss ++ ts) ≡ pieces ss ++ pieces ts
unfolding pieces
pieces-append [] ts = refl
pieces-append (s ∷ ss) ts =
    rw (pieces-append ss ts) (sym (append_assoc (piece s) (pieces ss) (pieces ts)))

-- Every piece of a path is its own only piece.
abbrev HasNoSlash : Bytes → Type 0
HasNoSlash s = All (λ c. (c == slash) ≡ false) s

cons_head-HasNoSlash :
    (c : ℕ) (ss : List Bytes)
    → (c == slash) ≡ false
    → All HasNoSlash ss
    → All HasNoSlash (cons_head c ss)
cons_head-HasNoSlash c [] e h = ((e, tt), tt)
cons_head-HasNoSlash c (s ∷ ss) e h = ((e, h.0), h.1)

pub split_slash-HasNoSlash : (xs : Bytes) → All HasNoSlash (split_slash xs)
unfolding split_slash
split_slash-HasNoSlash [] = (tt, tt)
split_slash-HasNoSlash (c ∷ cs) = elim (Bool-cases (c == slash)) [
  | inl e ↦ rw e (tt, split_slash-HasNoSlash cs)
  | inr e ↦ rw e (cons_head-HasNoSlash c (split_slash cs) e (split_slash-HasNoSlash cs))
]

split_slash-of_HasNoSlash : (s : Bytes) → HasNoSlash s → split_slash s ≡ s ∷ []
unfolding split_slash
split_slash-of_HasNoSlash [] h = refl
split_slash-of_HasNoSlash (c ∷ cs) h = rw (h.0, split_slash-of_HasNoSlash cs h.1)

piece-IsName : (s : Bytes) → HasNoSlash s → All IsNameOrParent (piece s)
unfolding piece
piece-IsName s h = elim (Bool-cases (bytes_eq s [])) [
  | inl e ↦ rw e tt
  | inr e ↦ elim (Bool-cases (is_dot s)) [
    | inl f ↦ rw (e, f) tt
    | inr f ↦ elim (Bool-cases (bytes_eq s (dot ∷ dot ∷ []))) [
      | inl g ↦ rw (e, f, g) (tt, tt)
      | inr g ↦
          rw (e, f, g)
            (record { as_piece = rw (e, f, g); unsplit = split_slash-of_HasNoSlash s h }, tt)
    ]
  ]
]

pub pieces-IsName : (ss : List Bytes) → All HasNoSlash ss → All IsNameOrParent (pieces ss)
unfolding pieces
pieces-IsName [] h = tt
pieces-IsName (s ∷ ss) h =
    All-append IsNameOrParent (piece s) (pieces ss) (piece-IsName s h.0) (pieces-IsName ss h.1)

-- A buffer that starts with a slash, as `normalized` always does.
abbrev pub IsRooted : Bytes → Type 0
IsRooted buf = is_absolute buf ≡ true

pub components_rooted :
    (buf : Bytes) → IsRooted buf → components buf ≡ root_dir ∷ pieces (split_slash buf)
unfolding components
components_rooted buf h = rw h

-- A name is not empty and does not start with a slash.
IsName-not-absolute : (n : Bytes) → IsName n → is_absolute n ≡ false
unfolding is_absolute split_slash
IsName-not-absolute [] h = refl
IsName-not-absolute (c ∷ cs) h = elim (Bool-cases (c == slash)) [
  | inl e ↦ absurd (cc (rw e at h.unsplit))
  | inr e ↦ e
]

-- Where no separator is needed, the buffer ends in a slash.
ends_in_slash :
    (c : ℕ) (cs : Bytes)
    → needs_separator (c ∷ cs) ≡ false
    → (front : Bytes) × (c ∷ cs ≡ front ++ (slash ∷ []))
unfolding needs_separator
ends_in_slash c [] h = ([], ground arith)
ends_in_slash c (d ∷ ds) h = let (front, e) = ends_in_slash d ds h in (c ∷ front, ap (λ t. c ∷ t) e)

pub is_absolute-append : (buf more : Bytes) → IsRooted buf → IsRooted (buf ++ more)
unfolding is_absolute
is_absolute-append [] more h = cc
is_absolute-append (c ∷ cs) more h = h

pub pieces_last : (n : Bytes) → IsName n → pieces (split_slash n) ≡ normal n ∷ []
unfolding pieces
pieces_last n h = rw (h.unsplit, h.as_piece)

-- Pushing a name on a rooted buffer adds it as the last component.
pub push-IsRooted : (buf n : Bytes) → IsRooted buf → IsName n → IsRooted (push buf n)
unfolding push
push-IsRooted buf n h hn =
    rw (IsName-not-absolute n hn) (by_separator (Bool-cases (needs_separator buf)))
  where
    by_separator :
        (needs_separator buf ≡ true) ⊎ (needs_separator buf ≡ false)
        → IsRooted (if needs_separator buf then buf ++ (slash ∷ n) else buf ++ n)
    by_separator (inl e) = rw e (is_absolute-append buf (slash ∷ n) h)
    by_separator (inr e) = rw e (is_absolute-append buf n h)

pub pieces-slash :
    (xs ys : Bytes)
    → pieces (split_slash (xs ++ (slash ∷ ys))) ≡ pieces (split_slash xs) ++ pieces (split_slash ys)
pieces-slash xs ys = rw (split_slash-append xs ys) (pieces-append (split_slash xs) (split_slash ys))

trailing_slash : (xs : Bytes) → pieces (split_slash (xs ++ (slash ∷ []))) ≡ pieces (split_slash xs)
unfolding pieces piece split_slash bytes_eq
trailing_slash xs = pieces-slash xs [] ∙ append-nil (pieces (split_slash xs))

pieces-after_slash :
    (front n : Bytes)
    → IsName n
    → pieces (split_slash ((front ++ (slash ∷ [])) ++ n))
      ≡ pieces (split_slash (front ++ (slash ∷ []))) ++ (normal n ∷ [])
pieces-after_slash front n hn = rw (
  append_assoc front (slash ∷ []) n,
  pieces-slash front n,
  pieces_last n hn,
  trailing_slash front,
)

pieces-append_name :
    (buf n : Bytes)
    → IsRooted buf
    → IsName n
    → needs_separator buf ≡ false
    → pieces (split_slash (buf ++ n)) ≡ pieces (split_slash buf) ++ (normal n ∷ [])
unfolding is_absolute
pieces-append_name [] n h hn e = cc
pieces-append_name (c ∷ cs) n h hn e =
    let (front, p) = ends_in_slash c cs e in
    subst (λ buf. pieces (split_slash (buf ++ n)) ≡ pieces (split_slash buf) ++ (normal n ∷ []))
      (sym p) (pieces-after_slash front n hn)

pieces-push :
    (buf n : Bytes)
    → IsRooted buf
    → IsName n
    → pieces (split_slash (push buf n)) ≡ pieces (split_slash buf) ++ (normal n ∷ [])
unfolding push
pieces-push buf n h hn = elim (Bool-cases (needs_separator buf)) [
  | inl e ↦ rw (IsName-not-absolute n hn, e, pieces-slash buf n, pieces_last n hn)
  | inr e ↦ rw (IsName-not-absolute n hn, e) (pieces-append_name buf n h hn e)
]

pub components-push :
    (buf n : Bytes)
    → IsRooted buf
    → IsName n
    → components (push buf n) ≡ components buf ++ (normal n ∷ [])
components-push buf n h hn = rw (
  components_rooted (push buf n) (push-IsRooted buf n h hn),
  components_rooted buf h,
  pieces-push buf n h hn,
)
