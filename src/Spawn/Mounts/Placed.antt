-- ===== src/Spawn/Mounts/Placed.antt =====
-- The mounts that are bound, with their places in the tree of mounts:
-- crates/bubblebox/src/platform/linux/spawn/mounts.rs.
use layer_cake.Prelude.{
  length-append, All-of_append, ℕ, ◌+◌, ◌≡◌, refl, ◌∙◌, true, List, [], ◌∷◌, length, get_elem?,
  some, All, All-append, arith,
}
use layer_cake.Paths.Guest.{GuestInner}
use layer_cake.Mounts.{MountInner, Mount}
use layer_cake.Mounts.Validate.{Entries}
use layer_cake.Spawn.Mounts.{MountKernel, ResolvedMount}
use layer_cake.Spawn.Mounts.Made.{is_directory, IsDetached, IsOverlay}
use layer_cake.Spawn.Mounts.Capture.{OverlayMount}
use layer_cake.Spawn.Mounts.Captured.{collect, overlay_of, Bind, bind_of, binds_of, overlays_of}
use layer_cake.Spawn.Mounts.Sound.{
  host_bind, overlaid, Kind, kind, count, count_nil, count_cons, Resolves, ResolvesAt, From,
  From-all, From-head, From-tail, From_cases,
}

-- What holds of what is collected.
module _ {B : Type 0} (of : ℕ → GuestInner → MountInner → List B) where
  collect-All :
      (P : B → Type 0) (tree : Entries)
      → ((i : ℕ) (e : GuestInner × Mount) → get_elem? tree i ≡ some e → All P (of i e.0 e.1.inner))
      → (i : ℕ) (rest : Entries) → From tree i rest
      → All P (collect of i rest)
  unfolding collect
  collect-All P tree h i [] f = tt
  collect-All P tree h i ((d, m) ∷ rest) f =
      All-append P (of i d m.inner) (collect of (i + 1) rest)
        (h i (d, m) (From-head tree i (d, m) rest f))
        (collect-All P tree h (i + 1) rest (From-tail tree i (d, m) rest f))

  module _ (k : Kind) where
    -- Each mount of the kind is collected.
    collect-at :
        (P : ℕ → Type 0) (index : B → ℕ)
        → ((i : ℕ) (d : GuestInner) (m : MountInner)
            → kind m ≡ k
            → All (λ b. P (index b)) (of i d m)
            → P i)
        → (i : ℕ) (rest : Entries) → All (λ b. P (index b)) (collect of i rest)
        → (j : ℕ) (e : GuestInner × Mount) → get_elem? rest j ≡ some e
        → kind e.1.inner ≡ k
        → P (i + j)
    unfolding collect
    collect-at P index one i [] h j e q = cc
    collect-at P index one i ((d, m) ∷ rest) h j e q =
        let (first, others) =
          All-of_append (λ b. P (index b)) (of i d m.inner) (collect of (i + 1) rest) h in
        From_cases P (λ x. kind x.1.inner ≡ k) i (d, m) rest (λ p. one i d m.inner p first)
          (collect-at P index one (i + 1) rest others) j e q

    length-collect :
        ((i : ℕ) (d : GuestInner) (m : Mount) → length (of i d m.inner) ≡ count k ((d, m) ∷ []))
        → (i : ℕ) (m : Entries) → length (collect of i m) ≡ count k m
    unfolding collect
    length-collect one i [] = count_nil k 0 ∙ omega arith
    length-collect one i ((d, m) ∷ rest) =
        length-append (of i d m.inner) (collect of (i + 1) rest)
        ∙ omega (arith, one i d m, length-collect one (i + 1) rest, count_cons k (d, m) rest)

-- The slot of a mount that is bound takes any mount that has been detached for it, and the slot of an
-- overlay any mount that has been made for it.
abbrev pub Placed : MountKernel → Entries → Bind → Type 0
Placed kernel tree (i, d, b) =
    (n : ℕ)
    → IsDetached kernel b n
    → ResolvesAt kernel tree i (ResolvedMount.fd n d (is_directory b))

abbrev pub PlacedOverlay : MountKernel → Entries → OverlayMount → Type 0
PlacedOverlay kernel tree m =
    (n : ℕ)
    → IsOverlay kernel m.overlay n
    → ResolvesAt kernel tree m.index (ResolvedMount.fd n m.destination true)

bind_of-Placed :
    (kernel : MountKernel) (tree : Entries) (i : ℕ) (d : GuestInner) (m : MountInner)
    → ((r : ResolvedMount) → Resolves kernel d m r → ResolvesAt kernel tree i r)
    → All (Placed kernel tree) (bind_of i d m)
bind_of-Placed kernel tree i d (MountInner.bind b) h =
    ((λ n made. h (ResolvedMount.fd n d (is_directory b)) (refl, refl, made)), tt)
bind_of-Placed kernel tree i d (MountInner.overlay o) h = tt
bind_of-Placed kernel tree i d (MountInner.procfs p) h = tt
bind_of-Placed kernel tree i d (MountInner.mqueue a) h = tt
bind_of-Placed kernel tree i d (MountInner.file f) h = tt
bind_of-Placed kernel tree i d (MountInner.symlink l) h = tt
bind_of-Placed kernel tree i d (MountInner.empty_directory o p) h = tt
bind_of-Placed kernel tree i d (MountInner.tmpfs t) h = tt

pub binds_of-Placed :
    (kernel : MountKernel) (tree : Entries) → All (Placed kernel tree) (binds_of 0 tree)
binds_of-Placed kernel tree =
    collect-All bind_of (Placed kernel tree) tree
      (λ i e q. bind_of-Placed kernel tree i e.0 e.1.inner (λ r p. (e, q, p))) 0 tree
      (From-all tree)

bind_of-at :
    (P : ℕ → Type 0) (i : ℕ) (d : GuestInner) (m : MountInner)
    → kind m ≡ host_bind
    → All (λ (b : Bind). P b.0) (bind_of i d m)
    → P i
bind_of-at P i d (MountInner.bind b) e h = h.0
bind_of-at P i d (MountInner.overlay o) e h = cc
bind_of-at P i d (MountInner.procfs p) e h = cc
bind_of-at P i d (MountInner.mqueue a) e h = cc
bind_of-at P i d (MountInner.file f) e h = cc
bind_of-at P i d (MountInner.symlink l) e h = cc
bind_of-at P i d (MountInner.empty_directory o p) e h = cc
bind_of-at P i d (MountInner.tmpfs t) e h = cc

-- Each is collected.
pub binds_of-at :
    (P : ℕ → Type 0) (tree : Entries)
    → All (λ (b : Bind). P b.0) (binds_of 0 tree)
    → (k : ℕ) (e : GuestInner × Mount) → get_elem? tree k ≡ some e
    → kind e.1.inner ≡ host_bind
    → P k
binds_of-at P tree h k e q r =
    let same : 0 + k ≡ k = omega arith in
    rw same at (collect-at bind_of host_bind P (λ (b : Bind). b.0) (bind_of-at P) 0 tree h k e q r)

length-bind_of :
    (i : ℕ) (d : GuestInner) (m : MountInner)
    → length (bind_of i d m) ≡ count host_bind ((d, record { inner = m }) ∷ [])
unfolding count
length-bind_of i d (MountInner.bind b) = refl
length-bind_of i d (MountInner.overlay o) = refl
length-bind_of i d (MountInner.procfs p) = refl
length-bind_of i d (MountInner.mqueue a) = refl
length-bind_of i d (MountInner.file f) = refl
length-bind_of i d (MountInner.symlink l) = refl
length-bind_of i d (MountInner.empty_directory o p) = refl
length-bind_of i d (MountInner.tmpfs t) = refl

pub length-binds_of : (m : Entries) → length (binds_of 0 m) ≡ count host_bind m
length-binds_of m = length-collect bind_of host_bind (λ i d m. length-bind_of i d m.inner) 0 m

overlay_of-PlacedOverlay :
    (kernel : MountKernel) (tree : Entries) (i : ℕ) (d : GuestInner) (m : MountInner)
    → ((r : ResolvedMount) → Resolves kernel d m r → ResolvesAt kernel tree i r)
    → All (PlacedOverlay kernel tree) (overlay_of i d m)
overlay_of-PlacedOverlay kernel tree i d (MountInner.bind b) h = tt
overlay_of-PlacedOverlay kernel tree i d (MountInner.overlay o) h =
    ((λ n made. h (ResolvedMount.fd n d true) (refl, refl, made)), tt)
overlay_of-PlacedOverlay kernel tree i d (MountInner.procfs p) h = tt
overlay_of-PlacedOverlay kernel tree i d (MountInner.mqueue a) h = tt
overlay_of-PlacedOverlay kernel tree i d (MountInner.file f) h = tt
overlay_of-PlacedOverlay kernel tree i d (MountInner.symlink l) h = tt
overlay_of-PlacedOverlay kernel tree i d (MountInner.empty_directory o p) h = tt
overlay_of-PlacedOverlay kernel tree i d (MountInner.tmpfs t) h = tt

pub overlays_of-PlacedOverlay :
    (kernel : MountKernel) (tree : Entries) → All (PlacedOverlay kernel tree) (overlays_of 0 tree)
overlays_of-PlacedOverlay kernel tree =
    collect-All overlay_of (PlacedOverlay kernel tree) tree
      (λ i e q. overlay_of-PlacedOverlay kernel tree i e.0 e.1.inner (λ r p. (e, q, p))) 0 tree
      (From-all tree)

overlay_of-at :
    (P : ℕ → Type 0) (i : ℕ) (d : GuestInner) (m : MountInner)
    → kind m ≡ overlaid
    → All (λ (m : OverlayMount). P m.index) (overlay_of i d m)
    → P i
overlay_of-at P i d (MountInner.bind b) e h = cc
overlay_of-at P i d (MountInner.overlay o) e h = h.0
overlay_of-at P i d (MountInner.procfs p) e h = cc
overlay_of-at P i d (MountInner.mqueue a) e h = cc
overlay_of-at P i d (MountInner.file f) e h = cc
overlay_of-at P i d (MountInner.symlink l) e h = cc
overlay_of-at P i d (MountInner.empty_directory o p) e h = cc
overlay_of-at P i d (MountInner.tmpfs t) e h = cc

-- Each is collected.
pub overlays_of-at :
    (P : ℕ → Type 0) (tree : Entries)
    → All (λ (m : OverlayMount). P m.index) (overlays_of 0 tree)
    → (k : ℕ) (e : GuestInner × Mount) → get_elem? tree k ≡ some e
    → kind e.1.inner ≡ overlaid
    → P k
overlays_of-at P tree h k e q r =
    let same : 0 + k ≡ k = omega arith in
    rw same at (
      collect-at overlay_of overlaid P (λ (m : OverlayMount). m.index) (overlay_of-at P) 0 tree h k
        e q r)

length-overlay_of :
    (i : ℕ) (d : GuestInner) (m : MountInner)
    → length (overlay_of i d m) ≡ count overlaid ((d, record { inner = m }) ∷ [])
unfolding count
length-overlay_of i d (MountInner.bind b) = refl
length-overlay_of i d (MountInner.overlay o) = refl
length-overlay_of i d (MountInner.procfs p) = refl
length-overlay_of i d (MountInner.mqueue a) = refl
length-overlay_of i d (MountInner.file f) = refl
length-overlay_of i d (MountInner.symlink l) = refl
length-overlay_of i d (MountInner.empty_directory o p) = refl
length-overlay_of i d (MountInner.tmpfs t) = refl

pub length-overlays_of : (m : Entries) → length (overlays_of 0 m) ≡ count overlaid m
length-overlays_of m =
    length-collect overlay_of overlaid (λ i d m. length-overlay_of i d m.inner) 0 m
