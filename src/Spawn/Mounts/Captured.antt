-- ===== src/Spawn/Mounts/Captured.antt =====
-- What the first loop of `resolve_bind_mappings` of
-- crates/bubblebox/src/platform/linux/spawn/mounts.rs collects, against the list of the mounts that
-- are bound and of the overlays.
use layer_cake.Prelude.{
  ℕ, suc, ◌+◌, ◌≤◌, ◌≡◌, refl, ap, sym, ◌∙◌, List, [], ◌∷◌, ◌++◌, length, length-append, append-nil,
  append_assoc, All, All-append, arith,
}
use layer_cake.Meowix.Gives.{Gives, bind-Gives, pure-Gives, weaken-Gives}
use layer_cake.Paths.Guest.{GuestInner}
use layer_cake.Mounts.{OwnedFd, BindMount, directory, MountInner, Overlay}
use layer_cake.Mounts.Validate.{Entries}
use layer_cake.Spawn.Mounts.{Flags, MountKernel, Bounded, at}
use layer_cake.Spawn.Mounts.Capture.{
  NamespaceFd, OverlayMount, Scratch, capture_dirs, upper_parent, capture, capture_loop,
  capture_bind, capture_overlay,
}
use layer_cake.Spawn.Mounts.Steps.{push-Gives}
use layer_cake.Spawn.Mounts.Made.{entry_of, IsNamespace, IsCaptured}
use layer_cake.Meowix.Answers.{Answered, call-Answered}
use layer_cake.Prelude.Text.{codes}

-- A mount that is bound, with its index and its destination.
abbrev pub Bind : Type 0
Bind = ℕ × GuestInner × BindMount

abbrev pub bind_of : ℕ → GuestInner → MountInner → List Bind
bind_of i d (MountInner.bind b) = (i, d, b) ∷ []
bind_of i d _ = []

abbrev pub overlay_of : ℕ → GuestInner → MountInner → List OverlayMount
overlay_of i d (MountInner.overlay o) = record { index = i; destination = d; overlay = o } ∷ []
overlay_of i d _ = []

-- What the mounts from index `i` on are collected to.
unfoldable pub collect :
    {B : Type 0} → (ℕ → GuestInner → MountInner → List B) → ℕ → Entries → List B
collect of i [] = []
collect of i ((d, m) ∷ rest) = of i d m.inner ++ collect of (i + 1) rest

abbrev pub binds_of : ℕ → Entries → List Bind
binds_of i m = collect bind_of i m

abbrev pub overlays_of : ℕ → Entries → List OverlayMount
overlays_of i m = collect overlay_of i m

-- The constituents of overlays that are mounted from the host.
abbrev pub needed : Overlay → ℕ
needed o = length o.lowerdirs + length o.datadirs + length (upper_parent o.upperdirs)

unfoldable pub total_needed : List OverlayMount → ℕ
total_needed [] = 0
total_needed (m ∷ ms) = needed m.overlay + total_needed ms

-- An entry of a mount that is bound, with a namespace of its directory.
abbrev IsEntry : MountKernel → NamespaceFd → Bind → Type 0
IsEntry kernel n (i, d, b) =
    (namespace_fd : OwnedFd) × IsNamespace kernel b namespace_fd × (n ≡ entry_of i d b namespace_fd)

-- The entries of mounts, in their order.
abbrev pub AreEntries : MountKernel → List NamespaceFd → List Bind → Type 0
AreEntries kernel [] [] = Unit
AreEntries kernel [] (b ∷ bs) = ⊥
AreEntries kernel (n ∷ ns) [] = ⊥
AreEntries kernel (n ∷ ns) (b ∷ bs) = IsEntry kernel n b × AreEntries kernel ns bs

AreEntries-append :
    (kernel : MountKernel) (ns ns' : List NamespaceFd) (bs bs' : List Bind)
    → AreEntries kernel ns bs
    → AreEntries kernel ns' bs'
    → AreEntries kernel (ns ++ ns') (bs ++ bs')
AreEntries-append kernel [] ns' [] bs' h k = k
AreEntries-append kernel [] ns' (b ∷ bs) bs' h k = absurd h
AreEntries-append kernel (n ∷ ns) ns' [] bs' h k = absurd h
AreEntries-append kernel (n ∷ ns) ns' (b ∷ bs) bs' h k =
    (h.0, AreEntries-append kernel ns ns' bs bs' h.1 k)

pub AreEntries-length :
    (kernel : MountKernel) (ns : List NamespaceFd) (bs : List Bind)
    → AreEntries kernel ns bs
    → length ns ≡ length bs
AreEntries-length kernel [] [] h = refl
AreEntries-length kernel [] (b ∷ bs) h = absurd h
AreEntries-length kernel (n ∷ ns) [] h = absurd h
AreEntries-length kernel (n ∷ ns) (b ∷ bs) h = ap suc (AreEntries-length kernel ns bs h.1)

-- What has been pushed.
abbrev pub Grown : MountKernel → List Bind → List OverlayMount → Scratch → Scratch → Type 0
Grown kernel binds overlays s t =
    ((new : List NamespaceFd) × (t.namespace_fds.elements ≡ s.namespace_fds.elements ++ new)
      × AreEntries kernel new binds)
    × (t.overlay_mounts.elements ≡ s.overlay_mounts.elements ++ overlays)
    × (length t.overlay_fds.elements ≡ length s.overlay_fds.elements + total_needed overlays)
    × (All (IsCaptured kernel) s.overlay_fds.elements
        → All (IsCaptured kernel) t.overlay_fds.elements)
    × (t.namespace_fds.capacity ≡ s.namespace_fds.capacity)
    × (t.overlay_mounts.capacity ≡ s.overlay_mounts.capacity)
    × (t.overlay_fds.capacity ≡ s.overlay_fds.capacity)

-- Room for `k` mounts and for `n` constituents.
abbrev pub Room : ℕ → ℕ → Scratch → Type 0
Room k n s =
    (length s.namespace_fds.elements + k ≤ s.namespace_fds.capacity)
    × (length s.overlay_mounts.elements + k ≤ s.overlay_mounts.capacity)
    × (length s.overlay_fds.elements + n ≤ s.overlay_fds.capacity)

pub total_needed-append :
    (a b : List OverlayMount) → total_needed (a ++ b) ≡ total_needed a + total_needed b
unfolding total_needed
total_needed-append [] b = omega arith
total_needed-append (m ∷ a) b = omega (arith, total_needed-append a b)

Grown-none : (kernel : MountKernel) (s : Scratch) → Grown kernel [] [] s s
unfolding total_needed
Grown-none kernel s =
    (([], sym (append-nil _), tt), sym (append-nil _), omega arith, λ h. h, refl, refl, refl)

Grown-trans :
    (kernel : MountKernel) (b b' : List Bind) (o o' : List OverlayMount) (s t u : Scratch)
    → Grown kernel b o s t
    → Grown kernel b' o' t u
    → Grown kernel (b ++ b') (o ++ o') s u
Grown-trans kernel b b' o o' s t u h k = (
  (
    h.0.0 ++ k.0.0,
    k.0.1 ∙ ap (λ x. x ++ k.0.0) h.0.1 ∙ append_assoc _ h.0.0 k.0.0,
    AreEntries-append kernel h.0.0 k.0.0 b b' h.0.2 k.0.2,
  ),
  k.1 ∙ ap (λ x. x ++ o') h.1 ∙ append_assoc _ o o',
  omega (arith, k.2, h.2, total_needed-append o o'),
  λ all. k.3 (h.3 all),
  k.4 ∙ h.4,
  k.5 ∙ h.5,
  k.6 ∙ h.6,
)

at_most_one :
    (i : ℕ) (d : GuestInner) (m : MountInner)
    → (length (bind_of i d m) ≤ 1) × (length (overlay_of i d m) ≤ 1)
at_most_one i d (MountInner.bind b) = (omega arith, omega arith)
at_most_one i d (MountInner.overlay o) = (omega arith, omega arith)
at_most_one i d (MountInner.procfs p) = (omega arith, omega arith)
at_most_one i d (MountInner.mqueue a) = (omega arith, omega arith)
at_most_one i d (MountInner.file f) = (omega arith, omega arith)
at_most_one i d (MountInner.symlink l) = (omega arith, omega arith)
at_most_one i d (MountInner.empty_directory o p) = (omega arith, omega arith)
at_most_one i d (MountInner.tmpfs t) = (omega arith, omega arith)

-- Room for what follows a mount.
Room-step :
    (kernel : MountKernel) (i : ℕ) (d : GuestInner) (m : MountInner) (k n : ℕ) (s t : Scratch)
    → Grown kernel (bind_of i d m) (overlay_of i d m) s t
    → Room (suc k) (total_needed (overlay_of i d m) + n) s
    → Room k n t
Room-step kernel i d m k n s t g h =
    let (one, one') = at_most_one i d m in
    let pushed = ap length g.0.1 ∙ length-append s.namespace_fds.elements g.0.0 in
    let all = AreEntries-length kernel g.0.0 (bind_of i d m) g.0.2 in
    let overlays = ap length g.1 ∙ length-append s.overlay_mounts.elements (overlay_of i d m) in
    (
      omega (arith, h.0, pushed, all, one, g.4),
      omega (arith, h.1, overlays, one', g.5),
      omega (arith, h.2, g.2, g.6),
    )

module _ (kernel : MountKernel) where
  open kernel use {State, open_tree}

  capture_dirs-Gives :
      (dirs : List OwnedFd) (fds : Bounded OwnedFd)
      → length fds.elements + length dirs ≤ fds.capacity
      → Gives
          (λ v.
            (v.capacity ≡ fds.capacity)
            × (length v.elements ≡ length fds.elements + length dirs)
            × (All (IsCaptured kernel) fds.elements → All (IsCaptured kernel) v.elements))
          (capture_dirs kernel dirs fds)
  unfolding capture_dirs
  capture_dirs-Gives [] fds h = pure-Gives _ _ (refl, omega arith, λ all. all)
  capture_dirs-Gives (d ∷ dirs) fds h = bind-Gives _ _ _ _ (call-Answered _ _) (λ n answer.
      bind-Gives (λ w. w ≡ record fds { elements = fds.elements ++ n ∷ [] }) _ _ _
        (push-Gives n fds (omega (arith, h)))
        (λ w q.
          let elements = ap (λ (v : Bounded OwnedFd). v.elements) q in
          let grown =
            ap (λ (l : List OwnedFd). length l) elements ∙ length-append fds.elements (n ∷ []) in
          let same = ap (λ (v : Bounded OwnedFd). v.capacity) q in
          weaken-Gives _ _ _ (capture_dirs-Gives dirs w (omega (arith, h, grown, same))) (λ v p. (
            p.0 ∙ same,
            omega (arith, p.1, grown),
            λ all. p.2 (
                rw elements
                  (All-append (IsCaptured kernel) fds.elements (n ∷ []) all ((d, answer), tt))),
          ))))

  pushed :
      (n : NamespaceFd) (b : Bind) (s : Scratch)
      → IsEntry kernel n b
      → Grown kernel (b ∷ []) [] s (record s {
        namespace_fds = record s.namespace_fds { elements = s.namespace_fds.elements ++ n ∷ [] };
      })
  unfolding total_needed
  pushed n b s e =
      ((n ∷ [], refl, (e, tt)), sym (append-nil _), omega arith, λ all. all, refl, refl, refl)

  capture_bind-Gives :
      (dir : OwnedFd) (flags : Flags) (entry : OwnedFd → NamespaceFd) (b : Bind) (s : Scratch)
      → ((n : OwnedFd)
          → Answered (open_tree (at dir) (codes "") flags) n
          → IsEntry kernel (entry n) b)
      → Room 1 0 s
      → Gives (Grown kernel (b ∷ []) [] s) (capture_bind kernel dir flags entry s)
  capture_bind-Gives dir flags entry b s e h = bind-Gives _ _ _ _ (call-Answered _ _) (λ n answer.
      bind-Gives
        (λ w. w ≡ record s.namespace_fds { elements = s.namespace_fds.elements ++ entry n ∷ [] }) _
        _ _ (push-Gives (entry n) s.namespace_fds (omega (arith, h.0)))
        (λ w q. pure-Gives _ _ (rw q (pushed (entry n) b s (e n answer)))))

  capture_overlay-Gives :
      (i : ℕ) (d : GuestInner) (o : Overlay) (s : Scratch)
      → Room 1 (needed o) s
      → Gives
          (Grown kernel [] (overlay_of i d (MountInner.overlay o)) s)
          (capture_overlay kernel i d o s)
  unfolding total_needed
  capture_overlay-Gives i d o s h =
      let dirs = length-append o.lowerdirs o.datadirs in
      bind-Gives
        (λ w. w ≡ record s.overlay_mounts {
          elements = s.overlay_mounts.elements ++ overlay_of i d (MountInner.overlay o);
        })
        _ _ _ (push-Gives _ s.overlay_mounts (omega (arith, h.1)))
        (λ w q.
          bind-Gives _ _ _ _
            (capture_dirs-Gives (o.lowerdirs ++ o.datadirs) s.overlay_fds
              (omega (arith, h.2, dirs)))
            (λ lower p.
              bind-Gives _ _ _ _
                (capture_dirs-Gives (upper_parent o.upperdirs) lower
                  (omega (arith, h.2, dirs, p.0, p.1)))
                (λ fds r. pure-Gives _ _ (
                  ([], sym (append-nil _), tt),
                  ap (λ (v : Bounded OverlayMount). v.elements) q,
                  omega (arith, r.1, p.1, dirs),
                  λ all. r.2 (p.2 all),
                  refl,
                  ap (λ (v : Bounded OverlayMount). v.capacity) q,
                  r.0 ∙ p.0,
                ))))

  capture-Gives :
      (i : ℕ) (d : GuestInner) (m : MountInner) (s : Scratch)
      → Room 1 (total_needed (overlay_of i d m)) s
      → Gives (Grown kernel (bind_of i d m) (overlay_of i d m) s) (capture kernel i d m s)
  unfolding capture total_needed
  capture-Gives i d (MountInner.bind (BindMount.file f)) s h =
      capture_bind-Gives _ _ _ (i, d, BindMount.file f) s (λ n answer. (n, answer, refl)) h
  capture-Gives i d (MountInner.bind (directory dir a r)) s h =
      capture_bind-Gives _ _ _ (i, d, directory dir a r) s (λ n answer. (n, answer, refl)) h
  capture-Gives i d (MountInner.overlay o) s h =
      capture_overlay-Gives i d o s (h.0, h.1, omega (arith, h.2))
  capture-Gives i d (MountInner.procfs p) s h = pure-Gives _ _ (Grown-none kernel s)
  capture-Gives i d (MountInner.mqueue a) s h = pure-Gives _ _ (Grown-none kernel s)
  capture-Gives i d (MountInner.file f) s h = pure-Gives _ _ (Grown-none kernel s)
  capture-Gives i d (MountInner.symlink l) s h = pure-Gives _ _ (Grown-none kernel s)
  capture-Gives i d (MountInner.empty_directory o p) s h = pure-Gives _ _ (Grown-none kernel s)
  capture-Gives i d (MountInner.tmpfs t) s h = pure-Gives _ _ (Grown-none kernel s)

  -- The first loop of `resolve_bind_mappings` comes to an end where there is room. If it returns,
  -- it has pushed a namespace for each mount that is bound, each overlay, and as many namespaces as
  -- the overlays need.
  pub capture_loop-Gives :
      (i : ℕ) (rest : Entries) (s : Scratch)
      → Room (length rest) (total_needed (overlays_of i rest)) s
      → Gives (Grown kernel (binds_of i rest) (overlays_of i rest) s) (capture_loop kernel i rest s)
  unfolding capture_loop collect
  capture_loop-Gives i [] s h = pure-Gives _ _ (Grown-none kernel s)
  capture_loop-Gives i ((d, m) ∷ rest) s h =
      let parts = total_needed-append (overlay_of i d m.inner) (overlays_of (i + 1) rest) in
      bind-Gives (Grown kernel (bind_of i d m.inner) (overlay_of i d m.inner) s) _ _ _
        (capture-Gives i d m.inner s
          (omega (arith, h.0), omega (arith, h.1), omega (arith, h.2, parts)))
        (λ t g.
          weaken-Gives (Grown kernel (binds_of (i + 1) rest) (overlays_of (i + 1) rest) t) _ _
            (capture_loop-Gives (i + 1) rest t (
              Room-step kernel i d m.inner (length rest) _ s t g
                (h.0, h.1, omega (arith, h.2, parts))))
            (λ u k. Grown-trans kernel _ _ _ _ s t u g k))
