-- ===== src/Spawn/Mounts/Detached.antt =====
-- What `resolve_bind_mappings` of crates/bubblebox/src/platform/linux/spawn/mounts.rs writes.
use layer_cake.Prelude.{
  ℕ, suc, ◌≤◌, ◌≡◌, refl, ap, sym, ◌∙◌, Bool-cases, inl, inr, ◌==◌, leb, leb→le, List, [], ◌∷◌,
  ◌++◌, length, get_elem?, some, All, arith, ok,
}
use layer_cake.Spawn.Mounts.Made.{
  IsCaptured, InNamespace, detaching_layer, IsOpened, IsNamespace, IsConstituent, entry_of,
  is_directory, file_info_of, attributes_of, is_recursive_of,
}
use layer_cake.Meowix.Netlink.Leaves.{call-Leaves, weaken-Leaves}
use layer_cake.Mounts.{BindMount, OwnedFd, Mount}
use layer_cake.Spawn.Mounts.{sys, MountKernel, Bounded, Slots, ResolvedMount, put}
use layer_cake.Meowix.Gives.{
  Gives, bind-Gives, then-Gives, pure-Gives, fail-Gives, call-Gives, weaken-Gives,
}
use layer_cake.Paths.Guest.{GuestInner}
use layer_cake.Mounts.Validate.{Entries}
use layer_cake.Spawn.Mounts.Capture.{NamespaceFd, OverlayMount, Scratch}
use layer_cake.Spawn.Mounts.Bind.{
  open_detached, clone_flags, detach_bind, detach_binds, detach_overlays, detach_all, detach,
  resolve_bind_mappings,
}
use layer_cake.Spawn.Mounts.Placed.{Placed, binds_of-Placed, binds_of-at, length-binds_of}
use layer_cake.Spawn.Mounts.Captured.{
  AreEntries, AreEntries-length, Bind, binds_of, overlays_of, total_needed, Grown,
  capture_loop-Gives,
}
use layer_cake.Spawn.Mounts.Steps.{write_slot-Gives, and_close-Gives}
use layer_cake.Spawn.Mounts.Sound.{
  host_bind, kind, count, IsWritten, Extends, Extends-refl, Extends-trans, put-Extends,
  get_elem?-lt,
}
use layer_cake.Spawn.Mounts.Opened.{open_detached-Leaves, in_namespace-Gives}

module _ (kernel : MountKernel) where
  open kernel use {State}

  -- A namespace whose mount has its place.
  detach_bind-Gives :
      (tree : Entries) (i : ℕ) (d : GuestInner) (b : BindMount) (namespace_fd : OwnedFd)
      (slots : Slots)
      → IsNamespace kernel b namespace_fd
      → Placed kernel tree (i, d, b)
      → length tree ≤ slots.capacity
      → Gives
          (λ slots'. Extends kernel tree slots slots' × IsWritten slots' i)
          (detach_bind kernel (entry_of i d b namespace_fd) slots)
  unfolding detach_bind
  detach_bind-Gives tree i d b namespace_fd slots opened p c =
      in_namespace-Gives kernel _ namespace_fd
        (IsOpened kernel (file_info_of b) (attributes_of b) (is_recursive_of b) namespace_fd)
        (open_detached kernel (file_info_of b) (clone_flags kernel (is_recursive_of b))
          (attributes_of b))
        _
        (open_detached-Leaves kernel (file_info_of b) (is_recursive_of b) (attributes_of b)
          namespace_fd)
        (λ m made.
          let (e, q, r) = p m (namespace_fd, opened, made) in
          weaken-Gives (λ s. s ≡ put i (ResolvedMount.fd m d (is_directory b)) slots) _ _
            (write_slot-Gives i _ slots (omega (arith, get_elem?-lt tree i e q, c)))
            (λ s same. rw same (put-Extends kernel tree i _ slots (e, q, r))))

  detach_binds-Gives :
      (tree : Entries) (ns : List NamespaceFd) (bs : List Bind) (slots : Slots)
      → AreEntries kernel ns bs
      → All (Placed kernel tree) bs
      → length tree ≤ slots.capacity
      → Gives
          (λ slots'. Extends kernel tree slots slots' × All (λ (b : Bind). IsWritten slots' b.0) bs)
          (detach_binds kernel ns slots)
  unfolding detach_binds
  detach_binds-Gives tree [] [] slots m h c = pure-Gives _ _ (Extends-refl kernel tree slots, tt)
  detach_binds-Gives tree [] (b ∷ bs) slots m h c = absurd m
  detach_binds-Gives tree (n ∷ ns) [] slots m h c = absurd m
  detach_binds-Gives tree (n ∷ ns) ((i, d, b) ∷ bs) slots ((fd, opened, same), m) h c =
      bind-Gives (λ slots'. Extends kernel tree slots slots' × IsWritten slots' i) _ _ _
        (rw same (detach_bind-Gives tree i d b fd slots opened h.0 c))
        (λ s p.
          weaken-Gives (λ s'. Extends kernel tree s s' × All (λ (b : Bind). IsWritten s' b.0) bs) _
            _ (detach_binds-Gives tree ns bs s m h.1 (omega (arith, c, p.0.0)))
            (λ s' q. (Extends-trans kernel tree slots s s' p.0 q.0, (q.0.1 i p.1, q.1))))

  detach_overlays-Gives :
      (fds : List OwnedFd)
      → All (IsCaptured kernel) fds
      → Gives
          (λ mounts. (length mounts ≡ length fds) × All (IsConstituent kernel) mounts)
          (detach_overlays kernel fds)
  unfolding detach_overlays
  detach_overlays-Gives [] h = pure-Gives _ _ (refl, tt)
  detach_overlays-Gives (n ∷ fds) h =
      in_namespace-Gives kernel _ n (InNamespace kernel n (detaching_layer kernel))
        (sys kernel (detaching_layer kernel)) _
        (λ u entered.
          weaken-Leaves (λ m v. detaching_layer kernel u ≡ (ok m, v))
            (λ m _. InNamespace kernel n (detaching_layer kernel) m) _ (call-Leaves _ _ u)
            (λ m v e. (u, v, entered, e)))
        (λ m made.
          bind-Gives (λ mounts. (length mounts ≡ length fds) × All (IsConstituent kernel) mounts) _
            _ _
            (record { at = λ s. (detach_overlays-Gives fds h.1).at (MountKernel.close kernel n s) })
            (λ mounts q. pure-Gives _ _ (ap suc q.0, ((n, h.0, made), q.1))))

  -- What follows the first loop keeps of the scratch spaces.
  abbrev pub Detached : Entries → List Bind → Scratch → Slots → Slots × Scratch → Type 0
  Detached tree bs t slots (slots', t') =
      Extends kernel tree slots slots'
      × All (λ (b : Bind). IsWritten slots' b.0) bs
      × (t'.overlay_mounts ≡ t.overlay_mounts)
      × (length t'.overlay_fds.elements ≡ length t.overlay_fds.elements)
      × All (IsConstituent kernel) t'.overlay_fds.elements

  detach_all-Gives :
      (tree : Entries) (original : ℕ) (t : Scratch) (slots : Slots) (bs : List Bind)
      → AreEntries kernel t.namespace_fds.elements bs
      → All (Placed kernel tree) bs
      → All (IsCaptured kernel) t.overlay_fds.elements
      → length tree ≤ slots.capacity
      → Gives (Detached tree bs t slots) (detach_all kernel original t slots)
  unfolding detach_all
  detach_all-Gives tree original t slots bs m h k c = and_close-Gives kernel _ _ _ (
      bind-Gives _ _ _ _ (detach_binds-Gives tree t.namespace_fds.elements bs slots m h c) (λ s p.
        bind-Gives _ _ _ _ (detach_overlays-Gives t.overlay_fds.elements k) (λ mounts q.
          then-Gives _ _ _ (call-Gives _ _) (λ _. pure-Gives _ _ (p.0, p.1, refl, q.0, q.1)))))

  abbrev pub Bound : Entries → Slots → ℕ × Slots × Scratch → Type 0
  Bound tree slots (n, slots', t) =
      (n ≡ count host_bind tree)
      × Extends kernel tree slots slots'
      × ((k : ℕ) (e : GuestInner × Mount)
          → get_elem? tree k ≡ some e
          → kind e.1.inner ≡ host_bind
          → IsWritten slots' k)
      × (t.overlay_mounts.elements ≡ overlays_of 0 tree)
      × (length t.overlay_fds.elements ≡ total_needed (overlays_of 0 tree))
      × All (IsConstituent kernel) t.overlay_fds.elements

  abbrev pub Fresh : Entries → Scratch → Type 0
  Fresh tree s =
      (s.namespace_fds.elements ≡ [])
      × (s.overlay_mounts.elements ≡ [])
      × (s.overlay_fds.elements ≡ [])
      × (length tree ≤ s.overlay_mounts.capacity)
      × (total_needed (overlays_of 0 tree) ≤ s.overlay_fds.capacity)

  detach-Gives :
      (tree : Entries) (s t : Scratch) (slots : Slots)
      → Fresh tree s
      → Grown kernel (binds_of 0 tree) (overlays_of 0 tree) s t
      → length tree ≤ slots.capacity
      → Gives (Bound tree slots) (detach kernel t slots)
  unfolding detach
  detach-Gives tree s t slots f g c =
      let grown = g.0.1 ∙ ap (λ l. l ++ g.0.0) f.0 in
      let entries : AreEntries kernel t.namespace_fds.elements (binds_of 0 tree) =
        rw (sym grown) at (g.0.2) in
      then-Gives _ _ _ (call-Gives _ _) (λ _. then-Gives _ _ _ (call-Gives _ _) (λ original.
        bind-Gives _ _ _ _
          (detach_all-Gives tree original t slots (binds_of 0 tree) entries
            (binds_of-Placed kernel tree) (g.3 (rw f.2 tt)) c)
          (λ r p. then-Gives _ _ _ (call-Gives _ _) (λ _. pure-Gives _ _ (
            AreEntries-length kernel t.namespace_fds.elements (binds_of 0 tree) entries
                ∙ length-binds_of tree,
            p.0,
            binds_of-at (IsWritten r.0) tree p.1,
            ap (λ (v : Bounded OverlayMount). v.elements) p.2
                ∙ g.1
                ∙ ap (λ l. l ++ overlays_of 0 tree) f.1,
            omega (arith, p.3, g.2, ap length f.2),
            p.4,
          )))))

  -- On scratch spaces that are empty and have room for the overlays and for all that they need,
  -- `resolve_bind_mappings` comes to an end. Where it returns, it has counted the mounts that are
  -- bound and has written the slot of each of them, keeping those that were written, and if what
  -- was written before is what the mounts are resolved to, so is all that is written now: for a
  -- mount that is bound its destination, whether it is a directory, and a descriptor that
  -- open_tree_attr has answered for the name, the flags and the attributes of that mount, right
  -- behind the entry of a namespace that was opened of its directory, of which statx has told the
  -- same device and inode as of the original where it is a file. And it has left the overlays, in
  -- their order, with as many descriptors as they need, each of which open_tree_attr has answered
  -- with the flags and the attributes of a constituent, right behind the entry of a namespace that
  -- was opened of a directory.
  pub resolve_bind_mappings-Gives :
      (tree : Entries) (len : ℕ) (slots : Slots) (s : Scratch)
      → Fresh tree s
      → Gives (Bound tree slots) (resolve_bind_mappings kernel tree len slots s)
  unfolding resolve_bind_mappings
  resolve_bind_mappings-Gives tree len slots s f = elim (Bool-cases (len == 0)) [
    | inr e ↦ rw e (fail-Gives (Bound tree slots) _)
    | inl e ↦ rw e (elim (Bool-cases (leb (length tree) slots.capacity)) [
      | inr c ↦ rw c (fail-Gives (Bound tree slots) _)
      | inl c ↦ rw c (elim (Bool-cases (leb (length tree) s.namespace_fds.capacity)) [
        | inr d ↦ rw d (fail-Gives (Bound tree slots) _)
        | inl d ↦ rw d (
            bind-Gives (Grown kernel (binds_of 0 tree) (overlays_of 0 tree) s) _ _ _
              (capture_loop-Gives kernel 0 tree s (
                omega (arith, ap length f.0, leb→le (length tree) s.namespace_fds.capacity d),
                omega (arith, ap length f.1, f.3),
                omega (arith, ap length f.2, f.4),
              ))
              (λ t g. detach-Gives tree s t slots f g (leb→le (length tree) slots.capacity c)))
      ])
    ])
  ]
