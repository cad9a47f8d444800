-- ===== src/Spawn/Mounts/Sound.antt =====
-- The slots that resolved mounts are written to, against the tree of mounts.
use layer_cake.Prelude.{
  ℕ, zero, suc, ◌+◌, ◌<◌, ◌≡◌, ◌≢◌, refl, ap, sym, ◌∙◌, Bool, true, false, List, [], ◌∷◌, length,
  get_elem?, none, some, ◌==◌, Bool-cases, inl, inr, arith,
}
use layer_cake.Paths.Guest.{GuestInner}
use layer_cake.Prelude.Text.{codes}
use layer_cake.Mounts.{OwnedFd, MountInner, Mount}
use layer_cake.Mounts.Attributes.{into_mount_attr}
use layer_cake.Mounts.Validate.{Entries}
use layer_cake.Spawn.Mounts.{MountKernel, ResolvedMount, Slots, put}
use layer_cake.Spawn.Mounts.Made.{
  is_directory, IsDetached, IsMountOf, IsOverlay, IsProc, IsTmpfs, IsPlain,
}

-- The function that resolves a mount.
pub data Kind : Type 0 where
  host_bind overlaid synthetic : Kind

abbrev pub kind : MountInner → Kind
kind (MountInner.bind b) = host_bind
kind (MountInner.overlay o) = overlaid
kind _ = synthetic

abbrev pub kind_eq : Kind → Kind → Bool
kind_eq host_bind host_bind = true
kind_eq overlaid overlaid = true
kind_eq synthetic synthetic = true
kind_eq _ _ = false

-- The number of mounts of a kind.
unfoldable pub count : Kind → Entries → ℕ
count k [] = 0
count k (x ∷ m) = elim (kind_eq k (kind x.1.inner)) [ true ↦ suc (count k m) | false ↦ count k m ]

pub count_all : (m : Entries) → count host_bind m + count overlaid m + count synthetic m ≡ length m
unfolding count
count_all [] = omega arith
count_all (x ∷ m) =
    elim (kind x.1.inner)
      as (λ k.
        (elim (kind_eq host_bind k) [ true ↦ suc (count host_bind m) | false ↦ count host_bind m ])
          + (elim (kind_eq overlaid k) [ true ↦ suc (count overlaid m) | false ↦ count overlaid m ])
          + (elim (kind_eq synthetic k) [
            | true ↦ suc (count synthetic m)
            | false ↦ count synthetic m
          ])
        ≡ suc (length m)) [
          | host_bind ↦ omega (arith, count_all m)
          | overlaid ↦ omega (arith, count_all m)
          | synthetic ↦ omega (arith, count_all m)
        ]

pub count_nil : (k : Kind) (n : ℕ) → n ≡ n + count k []
unfolding count
count_nil k n = omega arith

pub count_cons :
    (k : Kind) (x : GuestInner × Mount) (m : Entries)
    → count k (x ∷ m) ≡ count k (x ∷ []) + count k m
unfolding count
count_cons k x m = elim (Bool-cases (kind_eq k (kind x.1.inner))) [
  | inl e ↦ rw (e, count) (omega arith)
  | inr e ↦ rw (e, count) (omega arith)
]

kind_eq_refl : (k : Kind) → kind_eq k k ≡ true
kind_eq_refl host_bind = refl
kind_eq_refl overlaid = refl
kind_eq_refl synthetic = refl

kind_eq→eq : (k j : Kind) → kind_eq k j ≡ true → j ≡ k
kind_eq→eq host_bind host_bind e = refl
kind_eq→eq overlaid overlaid e = refl
kind_eq→eq synthetic synthetic e = refl
kind_eq→eq host_bind overlaid e = cc
kind_eq→eq host_bind synthetic e = cc
kind_eq→eq overlaid host_bind e = cc
kind_eq→eq overlaid synthetic e = cc
kind_eq→eq synthetic host_bind e = cc
kind_eq→eq synthetic overlaid e = cc

-- A mount counts for its kind alone.
pub count_one :
    (k : Kind) (x : GuestInner × Mount)
    → (kind x.1.inner ≡ k → count k (x ∷ []) ≡ 1) × (kind x.1.inner ≢ k → count k (x ∷ []) ≡ 0)
unfolding count
count_one k x = (
  λ e. let same = ap (kind_eq k) e ∙ kind_eq_refl k in rw (same, count) refl,
  λ n. elim (Bool-cases (kind_eq k (kind x.1.inner))) [
    | inl e ↦ absurd (n (kind_eq→eq k (kind x.1.inner) e))
    | inr e ↦ rw (e, count) refl
  ],
)

-- A detached mount that is right, at the destination, which is a directory or not.
abbrev pub IsFd : (OwnedFd → Type 0) → GuestInner → Bool → ResolvedMount → Type 0
IsFd IsRight destination is_directory (ResolvedMount.fd n d b) =
    (d ≡ destination) × (b ≡ is_directory) × IsRight n
IsFd IsRight destination is_directory _ = ⊥

-- What a mount is resolved to.
abbrev pub Resolves : MountKernel → GuestInner → MountInner → ResolvedMount → Type 0
Resolves kernel d (MountInner.bind b) r = IsFd (IsDetached kernel b) d (is_directory b) r
Resolves kernel d (MountInner.overlay o) r = IsFd (IsOverlay kernel o) d true r
Resolves kernel d (MountInner.procfs p) r =
    IsFd
      (IsMountOf kernel (codes "proc") (IsProc kernel p)
        (MountKernel.fsconfig_cmd_create_excl kernel) (into_mount_attr p.attributes))
      d true r
Resolves kernel d (MountInner.mqueue a) r =
    IsFd
      (IsMountOf kernel (codes "mqueue") (IsPlain kernel) (MountKernel.fsconfig_cmd_create kernel)
        (into_mount_attr a))
      d true r
Resolves kernel d (MountInner.tmpfs t) r =
    IsFd
      (IsMountOf kernel (codes "tmpfs") (IsTmpfs kernel t)
        (MountKernel.fsconfig_cmd_create_excl kernel) (into_mount_attr t.attributes))
      d true r
Resolves kernel d (MountInner.file f) r = r ≡ ResolvedMount.file f d
Resolves kernel d (MountInner.symlink source) r = r ≡ ResolvedMount.symlink source d
Resolves kernel d (MountInner.empty_directory owner permissions) r =
    r ≡ ResolvedMount.directory owner permissions d

-- A mount that index `i` of the tree may be resolved to.
abbrev pub ResolvesAt : MountKernel → Entries → ℕ → ResolvedMount → Type 0
ResolvesAt kernel tree i r =
    (e : GuestInner × Mount) × (get_elem? tree i ≡ some e) × Resolves kernel e.0 e.1.inner r

-- What is written in the slots is right.
abbrev pub Sound : MountKernel → Entries → Slots → Type 0
Sound kernel tree slots =
    (i : ℕ) (r : ResolvedMount) → slots.written i ≡ some r → ResolvesAt kernel tree i r

abbrev pub IsWritten : Slots → ℕ → Type 0
IsWritten slots i = slots.written i ≢ none

-- Later slots, and all that are right.
abbrev pub Extends : MountKernel → Entries → Slots → Slots → Type 0
Extends kernel tree slots slots' =
    (slots'.capacity ≡ slots.capacity)
    × ((i : ℕ) → IsWritten slots i → IsWritten slots' i)
    × (Sound kernel tree slots → Sound kernel tree slots')

pub Extends-refl :
    (kernel : MountKernel) (tree : Entries) (slots : Slots) → Extends kernel tree slots slots
Extends-refl kernel tree slots = (refl, λ i h. h, λ h. h)

pub Extends-trans :
    (kernel : MountKernel) (tree : Entries) (a b c : Slots)
    → Extends kernel tree a b
    → Extends kernel tree b c
    → Extends kernel tree a c
Extends-trans kernel tree a b c h k = (k.0 ∙ h.0, λ i w. k.1 i (h.1 i w), λ w. k.2 (h.2 w))

pub put-Extends :
    (kernel : MountKernel) (tree : Entries) (i : ℕ) (r : ResolvedMount) (slots : Slots)
    → ResolvesAt kernel tree i r
    → Extends kernel tree slots (put i r slots) × IsWritten (put i r slots) i
put-Extends kernel tree i r slots h = ((refl, later, right), here)
  where
    here : IsWritten (put i r slots) i
    here = let same : (i == i) ≡ true = ground arith in rw same (λ q. cc)

    later : (j : ℕ) → IsWritten slots j → IsWritten (put i r slots) j
    later j w = elim (Bool-cases (j == i)) [ inl e ↦ rw e (λ q. cc) | inr e ↦ rw e w ]

    some-inj : {a b : ResolvedMount} → some a ≡ some b → a ≡ b
    some-inj p = cc

    right : Sound kernel tree slots → Sound kernel tree (put i r slots)
    right w j q e = elim (Bool-cases (j == i)) [
      | inl b ↦ let same : j ≡ i = ground (arith, b) in rw (same, sym (some-inj (rw b at e))) h
      | inr b ↦ w j q (rw b at e)
    ]

pub get_elem?-lt :
    {A : Type 0} (xs : List A) (i : ℕ) (x : A) → get_elem? xs i ≡ some x → i < length xs
get_elem?-lt [] i x h = cc
get_elem?-lt (y ∷ ys) zero x h = omega arith
get_elem?-lt (y ∷ ys) (suc i) x h = omega (arith, get_elem?-lt ys i x h)

-- The entries from index `i` on.
abbrev pub From : Entries → ℕ → Entries → Type 0
From tree i rest =
    (k : ℕ) (e : GuestInner × Mount) → get_elem? rest k ≡ some e → get_elem? tree (i + k) ≡ some e

pub From-all : (tree : Entries) → From tree 0 tree
From-all tree k e h = let same : 0 + k ≡ k = omega arith in ap (get_elem? tree) same ∙ h

pub From-head :
    (tree : Entries) (i : ℕ) (x : GuestInner × Mount) (rest : Entries)
    → From tree i (x ∷ rest)
    → get_elem? tree i ≡ some x
From-head tree i x rest h =
    let same : i + 0 ≡ i = omega arith in ap (get_elem? tree) (sym same) ∙ h 0 x refl

pub From-tail :
    (tree : Entries) (i : ℕ) (x : GuestInner × Mount) (rest : Entries)
    → From tree i (x ∷ rest)
    → From tree (i + 1) rest
From-tail tree i x rest h k e q =
    let same : i + 1 + k ≡ i + suc k = omega arith in ap (get_elem? tree) same ∙ h (suc k) e q

-- What holds at an index and at those behind it.
pub From_cases :
    (P : ℕ → Type 0) (Q : GuestInner × Mount → Type 0) (i : ℕ) (x : GuestInner × Mount)
    (rest : Entries)
    → (Q x → P i)
    → ((k : ℕ) (e : GuestInner × Mount) → get_elem? rest k ≡ some e → Q e → P (i + 1 + k))
    → (k : ℕ) (e : GuestInner × Mount) → get_elem? (x ∷ rest) k ≡ some e
    → Q e
    → P (i + k)
From_cases P Q i x rest first others zero e h q =
    let same : i + 0 ≡ i = omega arith in rw same (first (rw (sym (some-inj h)) at q))
  where
    some-inj : {a b : GuestInner × Mount} → some a ≡ some b → a ≡ b
    some-inj p = cc
From_cases P Q i x rest first others (suc k) e h q =
    let same : i + 1 + k ≡ i + suc k = omega arith in rw same at (others k e h q)
