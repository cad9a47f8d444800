-- ===== src/Paths/RoundTrip.antt =====
-- What `GuestInner::new` keeps of a path (crates/bubblebox/src/platform/linux/paths.rs).
use layer_cake.Prelude.{
  ◌≡◌, refl, sym, ap, ◌∙◌, true, none, some, List, [], ◌∷◌, ◌++◌, append_assoc, append-nil,
  Bool-cases, Option-cases, Result-cases, inl, inr, Bytes, bytes_eq, All, All-of_append, ok, arith,
}
use mathlib.Core.Path.{subst, ap₂}
use layer_cake.Paths.Names.{
  IsName, IsNameOrParent, pieces-IsName, split_slash-HasNoSlash, components_rooted, IsRooted,
  pieces-slash, pieces_last, is_absolute-append, push-IsRooted, components-push,
}
use layer_cake.Paths.Std.{
  Component, prefix, root_dir, cur_dir, parent_dir, normal, slash, is_absolute, split_slash, piece,
  pieces, components, push, push_all, as_os_str, collect, unsnoc, last_name, is_below_root,
  file_name, parent,
}
use layer_cake.Paths.Guest.{
  GuestInner, with_c_str, normalize, from_normalized, new, joined, guest_components,
}

-- A loop of pushes of names, as `normalize` and `collect` make.
abbrev pub IsNormal : Component → Type 0
IsNormal (normal s) = IsName s
IsNormal root_dir = ⊥
IsNormal _ = ⊥

push_all-names :
    (cs : List Component) (buf : Bytes)
    → IsRooted buf
    → All IsNormal cs
    → IsRooted (push_all buf cs) × (components (push_all buf cs) ≡ components buf ++ cs)
unfolding push_all as_os_str
push_all-names [] buf h hs = (h, sym (append-nil (components buf)))
push_all-names (normal n ∷ cs) buf h hs =
    let (r, e) = push_all-names cs (push buf n) (push-IsRooted buf n h hs.0) hs.1 in
    (
      r,
      e
          ∙ ap (λ t. t ++ cs) (components-push buf n h hs.0)
          ∙ append_assoc (components buf) (normal n ∷ []) cs,
    )
push_all-names (prefix ∷ cs) buf h hs = absurd hs.0
push_all-names (root_dir ∷ cs) buf h hs = absurd hs.0
push_all-names (cur_dir ∷ cs) buf h hs = absurd hs.0
push_all-names (parent_dir ∷ cs) buf h hs = absurd hs.0

collect-names :
    (cs : List Component)
    → All IsNormal cs
    → IsRooted (collect (root_dir ∷ cs)) × (components (collect (root_dir ∷ cs)) ≡ root_dir ∷ cs)
unfolding collect components pieces piece bytes_eq
collect-names cs hs = push_all-names cs (slash ∷ []) refl hs

-- The loop of `new` accepts the names, and pushes each.
normalize-names :
    (cs : List Component) (buf out : Bytes)
    → All IsNameOrParent cs
    → normalize buf cs ≡ ok out
    → All IsNormal cs × (out ≡ push_all buf cs)
unfolding normalize push_all as_os_str
normalize-names [] buf out hs e = (tt, cc)
normalize-names (normal n ∷ cs) buf out hs e =
    let (ns, q) = normalize-names cs (push buf n) out hs.1 e in ((hs.0, ns), q)
normalize-names (parent_dir ∷ cs) buf out hs e = cc
normalize-names (prefix ∷ cs) buf out hs e = absurd hs.0
normalize-names (root_dir ∷ cs) buf out hs e = absurd hs.0
normalize-names (cur_dir ∷ cs) buf out hs e = absurd hs.0

-- The path that `new` has normalized: rooted, of names, and with the components of its argument.
pub normalize-components :
    (path out : Bytes)
    → IsRooted path
    → normalize (slash ∷ []) (components path) ≡ ok out
    → (cs : List Component) × All IsNormal cs
      × (components path ≡ root_dir ∷ cs)
      × (components out ≡ root_dir ∷ cs)
unfolding normalize push_all collect
normalize-components path out h e =
    let start = components_rooted path h in
    let (ns, q) =
      normalize-names (pieces (split_slash path)) (slash ∷ []) out
        (pieces-IsName (split_slash path) (split_slash-HasNoSlash path)) (rw start at e) in
    (
      pieces (split_slash path),
      ns,
      start,
      ap components q ∙ (collect-names (pieces (split_slash path)) ns).1,
    )

unsnoc-nil {ℓ} : {A : Type ℓ} (xs : List A) → unsnoc xs ≡ none → xs ≡ []
unfolding unsnoc
unsnoc-nil [] e = refl
unsnoc-nil (x ∷ xs) e = ground arith

unsnoc-append {ℓ} :
    {A : Type ℓ} (xs ys : List A) (y : A) → unsnoc xs ≡ some (ys, y) → xs ≡ ys ++ (y ∷ [])
unfolding unsnoc
unsnoc-append [] ys y e = cc
unsnoc-append (x ∷ xs) ys y e = elim (Option-cases (unsnoc xs)) [
  | inl p ↦ ground (arith, unsnoc-nil xs p)
  | inr ((zs, z), p) ↦ ground (arith, unsnoc-append xs zs z p)
]

-- The last name of a rooted list of names, and what stands before it.
IsName-last :
    (y : Component) (n : Bytes) → IsNormal y → last_name y ≡ some n → (y ≡ normal n) × IsName n
unfolding last_name
IsName-last (normal m) n h f = let p : m ≡ n = cc in (ap normal p, subst IsName p h)
IsName-last root_dir n h f = absurd h
IsName-last prefix n h f = absurd h
IsName-last cur_dir n h f = absurd h
IsName-last parent_dir n h f = absurd h

names_before :
    (cs ys : List Component) (y : Component)
    → All IsNormal cs
    → root_dir ∷ cs ≡ ys ++ (y ∷ [])
    → (n : Bytes) → last_name y ≡ some n
    → (ms : List Component) × (ys ≡ root_dir ∷ ms) × All IsNormal ms × (y ≡ normal n) × IsName n
unfolding last_name
names_before cs [] y hs e n f = ground arith
names_before cs (r ∷ ms) y hs e n f =
    let p : cs ≡ ms ++ (y ∷ []) = cc in
    let (before, last) = All-of_append IsNormal ms (y ∷ []) (subst (All IsNormal) p hs) in
    let (q, name) = IsName-last y n last.0 f in (ms, cc, before, q, name)

-- What the parts of a guest path are.
record HasParts (path : Bytes) (g : GuestInner) : Type 0 where
  dir_rooted : IsRooted g.parent_dir
  name : IsName g.file_name
  parts : components g.parent_dir ++ (normal g.file_name ∷ []) ≡ components path

parts_of :
    (cs ys : List Component) (y : Component) (out : Bytes) (g : GuestInner)
    → All IsNormal cs
    → components out ≡ root_dir ∷ cs
    → root_dir ∷ cs ≡ ys ++ (y ∷ [])
    → g.parent_dir ≡ collect ys
    → last_name y ≡ some g.file_name
    → HasParts out g
parts_of cs ys y out g hs e p dir f =
    let (ms, q, before, r, name) = names_before cs ys y hs p g.file_name f in
    let (rooted, same) = collect-names ms before in
    let d : g.parent_dir ≡ collect (root_dir ∷ ms) = dir ∙ ap collect q in
    record {
      dir_rooted = subst IsRooted (sym d) rooted;
      name = name;
      parts =
          ap (λ t. components t ++ (normal g.file_name ∷ [])) d
          ∙ ap (λ t. t ++ (normal g.file_name ∷ [])) same
          ∙ ap₂ (λ s t. s ++ (t ∷ [])) (sym q) (sym r)
          ∙ sym p
          ∙ sym e;
    }

from_normalized-parts :
    (cs : List Component) (out : Bytes) (g : GuestInner)
    → All IsNormal cs
    → components out ≡ root_dir ∷ cs
    → from_normalized out ≡ ok g
    → HasParts out g
unfolding from_normalized parent file_name with_c_str is_below_root
from_normalized-parts cs out g hs e h = elim (Option-cases (unsnoc (components out))) [
  | inl p ↦ cc (unsnoc-nil (components out) p)
  | inr ((ys, y), p) ↦
      parts_of cs ys y out g hs e (sym e ∙ unsnoc-append (components out) ys y p) (ground arith)
        (ground arith)
]

new-HasParts : (path : Bytes) (g : GuestInner) → new path ≡ ok g → IsRooted path × HasParts path g
unfolding new
new-HasParts path g h = elim (Bool-cases (is_absolute path)) [
  | inr a ↦ ground arith
  | inl a ↦ elim (Result-cases (normalize (slash ∷ []) (components path))) [
    | inr (e, p) ↦ ground arith
    | inl (out, p) ↦
        let (cs, hs, q, r) = normalize-components path out a p in
        let parts = from_normalized-parts cs out g hs r (ground arith) in
        (
          a,
          record {
            dir_rooted = parts.dir_rooted;
            name = parts.name;
            parts = parts.parts ∙ r ∙ sym q;
          },
        )
  ]
]

-- A guest path that `new` accepts is absolute, and its components are those of the argument.
pub new-components :
    (path : Bytes) (g : GuestInner)
    → new path ≡ ok g
    → (is_absolute path ≡ true) × (guest_components g ≡ components path)
unfolding guest_components
new-components path g h = let (a, parts) = new-HasParts path g h in (a, parts.parts)

-- For two absolute paths with the same components `new` has the same result.
pub new-of_components :
    (p q : Bytes)
    → is_absolute p ≡ true
    → is_absolute q ≡ true
    → components p ≡ components q
    → new p ≡ new q
unfolding new
new-of_components p q a b e = rw (a, b, e)

components-joined :
    (g : GuestInner)
    → IsRooted g.parent_dir
    → IsName g.file_name
    → IsRooted (joined g) × (components (joined g) ≡ guest_components g)
unfolding joined guest_components
components-joined g a name =
    let rooted = is_absolute-append g.parent_dir (slash ∷ g.file_name) a in
    (
      rooted,
      rw (
        components_rooted (g.parent_dir ++ (slash ∷ g.file_name)) rooted,
        components_rooted g.parent_dir a,
        pieces-slash g.parent_dir g.file_name,
        pieces_last g.file_name name,
      ),
    )

-- A guest path that `new` accepts, written as one string by `GuestInner::with_c_str`, reads back as
-- the same guest path.
pub new-joined : (path : Bytes) (g : GuestInner) → new path ≡ ok g → new (joined g) ≡ ok g
unfolding guest_components
new-joined path g h =
    let (a, parts) = new-HasParts path g h in
    let (b, e) = components-joined g parts.dir_rooted parts.name in
    new-of_components (joined g) path b a (e ∙ parts.parts) ∙ h
