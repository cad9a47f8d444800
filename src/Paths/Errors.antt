-- ===== src/Paths/Errors.antt =====
-- When `GuestInner::new` refuses a path, and with which error
-- (crates/bubblebox/src/platform/linux/paths.rs).
use layer_cake.Prelude.{
  length, ltb, ℕ, ◌≡◌, ◌≢◌, refl, Bool, true, false, none, some, List, [], ◌∷◌, ◌⊎◌, inl, inr,
  Bool-cases, Bytes, All, ok, err, arith,
}
use layer_cake.Paths.Std.{
  collect, last_name, is_below_root, Component, root_dir, cur_dir, prefix, parent_dir, normal,
  slash, is_absolute, split_slash, pieces, components, unsnoc, parent, file_name, push,
}
use layer_cake.Paths.Names.{
  IsNameOrParent, components_rooted, pieces-IsName, split_slash-HasNoSlash,
}
use layer_cake.Paths.RoundTrip.{IsNormal, normalize-components}
use layer_cake.Paths.Guest.{
  from_bytes_with_nul_error, has_no_null, c_str_buffer_too_small, WithCStrError, path_component_max,
  path_max, path_not_absolute, path_contains_parent, no_parent_directory, invalid, GuestInner,
  normalize, from_normalized, with_c_str, new,
}

-- Whether `..` is among the components.
unfoldable pub has_parent : List Component → Bool
has_parent [] = false
has_parent (parent_dir ∷ cs) = true
has_parent (c ∷ cs) = has_parent cs

-- The loop fails exactly at `..`.
normalize-has_parent :
    (cs : List Component) (buf : Bytes)
    → All IsNameOrParent cs
    → ((has_parent cs ≡ true) × (normalize buf cs ≡ err path_contains_parent))
      ⊎ ((has_parent cs ≡ false) × ((out : Bytes) × (normalize buf cs ≡ ok out)))
unfolding normalize has_parent
normalize-has_parent [] buf h = inr (refl, (buf, refl))
normalize-has_parent (normal n ∷ cs) buf h = normalize-has_parent cs (push buf n) h.1
normalize-has_parent (parent_dir ∷ cs) buf h = inl (refl, refl)
normalize-has_parent (prefix ∷ cs) buf h = absurd h.0
normalize-has_parent (root_dir ∷ cs) buf h = absurd h.0
normalize-has_parent (cur_dir ∷ cs) buf h = absurd h.0

unsnoc_name :
    (c : Component) (cs : List Component)
    → All IsNormal (c ∷ cs)
    → (ys : List Component) × (n : Bytes) × (unsnoc (c ∷ cs) ≡ some (ys, normal n))
unfolding unsnoc
unsnoc_name (normal n) [] h = ([], n, refl)
unsnoc_name root_dir [] h = absurd h.0
unsnoc_name prefix [] h = absurd h.0
unsnoc_name cur_dir [] h = absurd h.0
unsnoc_name parent_dir [] h = absurd h.0
unsnoc_name c (d ∷ ds) h = let (ys, n, e) = unsnoc_name d ds h.1 in (c ∷ ys, n, ground arith)

-- Past the loop only the length and null checks can fail, unless the path is the root.
abbrev NameOutcome : Bytes → Type 0
NameOutcome out =
    (from_normalized out ≡ err invalid) ⊎ ((g : GuestInner) × (from_normalized out ≡ ok g))

with_c_str-cases :
    (n : ℕ) (s : Bytes)
    → (with_c_str n s ok ≡ ok s) ⊎ ((e : WithCStrError) × (with_c_str n s ok ≡ err e))
unfolding with_c_str
with_c_str-cases n s = elim (Bool-cases (ltb (length s) n)) [
  | inr p ↦ inr (c_str_buffer_too_small, rw p)
  | inl p ↦ elim (Bool-cases (has_no_null s)) [
    | inr q ↦ inr (from_bytes_with_nul_error, rw (p, q))
    | inl q ↦ inl (rw (p, q))
  ]
]

from_normalized-name :
    (out up name : Bytes) → parent out ≡ some up → file_name out ≡ some name → NameOutcome out
unfolding from_normalized
from_normalized-name out up name p q = elim (with_c_str-cases path_max up) [
  | inr (e, f) ↦ inl (rw (p, f))
  | inl f ↦ elim (with_c_str-cases path_component_max name) [
    | inr (e, k) ↦ inl (rw (p, f, q, k))
    | inl k ↦ inr (record { parent_dir = up; file_name = name }, rw (p, f, q, k))
  ]
]

parent-root : (out : Bytes) → components out ≡ root_dir ∷ [] → parent out ≡ none
unfolding parent unsnoc is_below_root
parent-root out e = ground arith

from_normalized-root :
    (out : Bytes) → components out ≡ root_dir ∷ [] → from_normalized out ≡ err no_parent_directory
unfolding from_normalized
from_normalized-root out e = rw (parent-root out e)

unsnoc_rooted :
    (out : Bytes) (cs ys : List Component) (n : Bytes)
    → components out ≡ root_dir ∷ cs
    → unsnoc cs ≡ some (ys, normal n)
    → unsnoc (components out) ≡ some (root_dir ∷ ys, normal n)
unfolding unsnoc
unsnoc_rooted out cs ys n e p = rw e (ground arith)

from_normalized-names :
    (out : Bytes) (c : Component) (cs : List Component)
    → All IsNormal (c ∷ cs)
    → components out ≡ root_dir ∷ c ∷ cs
    → NameOutcome out
unfolding parent file_name is_below_root last_name
from_normalized-names out c cs h e =
    let (ys, n, p) = unsnoc_name c cs h in
    let q = unsnoc_rooted out (c ∷ cs) ys n e p in
    from_normalized-name out (collect (root_dir ∷ ys)) n (ground arith) (ground arith)

-- The outcomes of `new`, with the condition of each.
abbrev pub NewOutcome : Bytes → Type 0
NewOutcome path =
    ((is_absolute path ≡ false) × (new path ≡ err path_not_absolute))
    ⊎ ((is_absolute path ≡ true)
        × (has_parent (components path) ≡ true)
        × (new path ≡ err path_contains_parent))
    ⊎ ((components path ≡ root_dir ∷ []) × (new path ≡ err no_parent_directory))
    ⊎ ((is_absolute path ≡ true)
        × (has_parent (components path) ≡ false)
        × (components path ≢ root_dir ∷ [])
        × ((new path ≡ err invalid) ⊎ ((g : GuestInner) × (new path ≡ ok g))))

new_named :
    (path out : Bytes) (cs : List Component)
    → is_absolute path ≡ true
    → has_parent (components path) ≡ false
    → normalize (slash ∷ []) (components path) ≡ ok out
    → All IsNormal cs
    → components path ≡ root_dir ∷ cs
    → components out ≡ root_dir ∷ cs
    → NewOutcome path
unfolding new
new_named path out [] a b p hs q r = inr (inr (inl (q, rw (a, p) (from_normalized-root out r))))
new_named path out (c ∷ cs) a b p hs q r =
    inr (inr (inr (a, b, (λ s. cc), rw (a, p) (from_normalized-names out c cs hs r))))

-- A relative path, an absolute path with `..` and the root are refused, each with its own error; any
-- other path gives a guest path or the error `Invalid`, never `NoFileName` or `PathContainsPrefix`.
pub new_outcome : (path : Bytes) → NewOutcome path
unfolding new normalize has_parent
new_outcome path = elim (Bool-cases (is_absolute path)) [
  | inr a ↦ inl (a, rw a)
  | inl a ↦
      let start = components_rooted path a in
      elim (normalize-has_parent (pieces (split_slash path)) (slash ∷ [])
        (pieces-IsName (split_slash path) (split_slash-HasNoSlash path))) [
          | inl (b, p) ↦ inr (inl (a, rw start b, rw (a, start) (rw p)))
          | inr (b, (out, p)) ↦
              let (cs, hs, q, r) = normalize-components path out a (rw start p) in
              new_named path out cs a (rw start b) (rw start p) hs q r
        ]
]
