-- ===== src/Spawn/Mounts/Nonbinds.antt =====
-- What `resolve_nonbind_mappings` of crates/bubblebox/src/platform/linux/spawn/mounts.rs writes.
use layer_cake.Prelude.{
  Bool-cases, inl, inr, ◌==◌, leb→le, ℕ, ◌+◌, ◌≤◌, ◌≡◌, ◌≢◌, refl, Bytes, [], ◌∷◌, length,
  get_elem?, Option, none, some, true, leb, arith,
}
use layer_cake.Prelude.Text.{codes}
use layer_cake.Meowix.Act.{Call}
use layer_cake.Meowix.Answers.{Answered, call-Answered}
use layer_cake.Meowix.Gives.{
  then-Gives, fail-Gives, Gives, Any, pure, ◌>>=◌, bind-Gives, pure-Gives, weaken-Gives,
}
use layer_cake.Paths.Guest.{GuestInner}
use layer_cake.Mounts.{
  MountAttributes, MountInner, Mount, ProcSubset, full, pid, ProcPidNamespace, guest, Procfs, Tmpfs,
  TmpfsSize, unlimited, bytes, percent,
}
use layer_cake.Mounts.Attributes.{into_mount_attr}
use layer_cake.Mounts.Validate.{Entries}
use layer_cake.Spawn.Wire.{syscall}
use layer_cake.Spawn.Mounts.Made.{IsMountOf, IsProc, IsTmpfs, IsPlain, HasSubset, HasNamespace}
use layer_cake.Spawn.Mounts.{
  fsopen_cloexec, fsmount_cloexec, MountKernel, Guest, ResolvedMount, Slots, put, write_slot,
}
use layer_cake.Spawn.Mounts.Tmpfs.{call_with_c_str, apply_size, apply_max_inodes, apply_tmpfs_size}
use layer_cake.Spawn.Mounts.Nonbind.{
  set_gid, set_subset, set_pidns, mounted, resolve_procfs, resolve_mqueue, resolve_tmpfs,
  resolve_nonbind, write_resolved, nonbind_loop, resolve_nonbind_mappings,
}
use layer_cake.Spawn.Mounts.Steps.{step_rules, and_close-Gives, write_slot-Gives}
use layer_cake.Spawn.Mounts.Sound.{
  synthetic, kind, count, count_nil, count_cons, count_one, IsFd, Resolves, IsWritten, Extends,
  Extends-refl, Extends-trans, put-Extends, get_elem?-lt, From, From-all, From-head, From-tail,
  From_cases,
}

module _ (format : ℕ → Bytes) (kernel : MountKernel) where
  open kernel use {State, fsopen, fsconfig_cmd_create, fsconfig_cmd_create_excl, fsmount}

  pub call_with_c_str-Gives :
      (n : ℕ) (s : Bytes) (f : Bytes → Guest kernel (Unit {0}))
      → ((b : Bytes) → Gives Any (f b))
      → Gives Any (call_with_c_str n s f)
  unfolding call_with_c_str
  call_with_c_str-Gives n s f h = search step_rules

  apply_size-Gives : (fs : ℕ) (size : TmpfsSize) → Gives Any (apply_size format kernel fs size)
  unfolding apply_size
  apply_size-Gives fs unlimited = search step_rules
  apply_size-Gives fs (bytes n) = search (step_rules, call_with_c_str-Gives)
  apply_size-Gives fs (percent n) = search step_rules

  apply_max_inodes-Gives : (fs : ℕ) (n : Option ℕ) → Gives Any (apply_max_inodes format kernel fs n)
  unfolding apply_max_inodes
  apply_max_inodes-Gives fs none = search step_rules
  apply_max_inodes-Gives fs (some n) = search (step_rules, call_with_c_str-Gives)

  pub apply_tmpfs_size-Gives :
      (fs : ℕ) (size : TmpfsSize) (inodes : Option ℕ)
      → Gives Any (apply_tmpfs_size format kernel fs size inodes)
  unfolding apply_tmpfs_size
  apply_tmpfs_size-Gives fs size inodes =
      search (step_rules, apply_size-Gives, apply_max_inodes-Gives)

  set_gid-Gives : (fs : ℕ) (gid : Option ℕ) → Gives Any (set_gid format kernel fs gid)
  unfolding set_gid
  set_gid-Gives fs none = search step_rules
  set_gid-Gives fs (some n) = search (step_rules, call_with_c_str-Gives)

  set_subset-Gives :
      (fs : ℕ) (s : ProcSubset) → Gives (λ _. HasSubset kernel fs s) (set_subset format kernel fs s)
  set_subset-Gives fs full = pure-Gives _ _ tt
  set_subset-Gives fs pid = call-Answered _ _

  set_pidns-Gives :
      (fs : ℕ) (n : ProcPidNamespace)
      → Gives (λ _. HasNamespace kernel fs n) (set_pidns format kernel fs n)
  set_pidns-Gives fs guest = pure-Gives _ _ tt
  set_pidns-Gives fs (ProcPidNamespace.fd n) = call-Answered _ _

  -- The new mount of a file system that has been opened and created.
  mounted-Gives :
      (name : Bytes) (IsConfigured : ℕ → Type 0) (create : ℕ → Call State (Unit {0}))
      (fs attributes : ℕ) (d : GuestInner)
      → Answered (fsopen name (fsopen_cloexec ∷ [])) fs
      → IsConfigured fs
      → Answered (create fs) tt
      → Gives
          (IsFd (IsMountOf kernel name IsConfigured create attributes) d true)
          (mounted format kernel fs attributes d)
  mounted-Gives name IsConfigured create fs attributes d opened configured created =
      bind-Gives _ _ _ _ (call-Answered (fsmount fs (fsmount_cloexec ∷ []) attributes) syscall)
        (λ n made. pure-Gives _ _ (refl, refl, (fs, opened, configured, created, made)))

  resolve_procfs-Gives :
      (p : Procfs) (d : GuestInner)
      → Gives (Resolves kernel d (MountInner.procfs p)) (resolve_procfs format kernel p d)
  unfolding resolve_procfs
  resolve_procfs-Gives p d = bind-Gives _ _ _ _ (call-Answered _ _) (λ fs opened.
      and_close-Gives kernel _ _ _ (
        bind-Gives _ _ _ _ (call-Answered _ _) (λ _ hidepid.
          then-Gives _ _ _ (set_gid-Gives fs p.gid) (λ _.
            bind-Gives _ _ _ _ (set_subset-Gives fs p.subset) (λ _ subset.
              bind-Gives _ _ _ _ (set_pidns-Gives fs p.namespace) (λ _ namespace.
                bind-Gives _ _ _ _ (call-Answered _ _) (λ _ created.
                  mounted-Gives (codes "proc") (IsProc kernel p) fsconfig_cmd_create_excl fs _ d
                    opened (hidepid, subset, namespace) created)))))))

  resolve_mqueue-Gives :
      (a : MountAttributes) (d : GuestInner)
      → Gives
          (Resolves kernel d (MountInner.mqueue a))
          (resolve_mqueue format kernel (into_mount_attr a) d)
  unfolding resolve_mqueue
  resolve_mqueue-Gives a d = bind-Gives _ _ _ _ (call-Answered _ _) (λ fs opened.
      and_close-Gives kernel _ _ _ (
        bind-Gives _ _ _ _ (call-Answered _ _) (λ _ created.
          mounted-Gives (codes "mqueue") (IsPlain kernel) fsconfig_cmd_create fs _ d opened tt
            created)))

  resolve_tmpfs-Gives :
      (t : Tmpfs) (d : GuestInner)
      → Gives (Resolves kernel d (MountInner.tmpfs t)) (resolve_tmpfs format kernel t d)
  unfolding resolve_tmpfs
  resolve_tmpfs-Gives t d = bind-Gives _ _ _ _ (call-Answered _ _) (λ fs opened.
      and_close-Gives kernel _ _ _ (
        then-Gives _ _ _ (apply_tmpfs_size-Gives fs t.size t.max_inodes) (λ _.
          bind-Gives _ _ _ _ (call-Answered _ _) (λ _ mode.
            bind-Gives _ _ _ _ (call-Answered _ _) (λ _ created.
              mounted-Gives (codes "tmpfs") (IsTmpfs kernel t) fsconfig_cmd_create_excl fs _ d
                opened mode created)))))

  -- What the arms of the `match` give.
  abbrev Arm : GuestInner → MountInner → Option ResolvedMount → Type 0
  Arm d m none = kind m ≢ synthetic
  Arm d m (some r) = (kind m ≡ synthetic) × Resolves kernel d m r

  some-Arm :
      (d : GuestInner) (m : MountInner) (a : Guest kernel ResolvedMount)
      → kind m ≡ synthetic
      → Gives (Resolves kernel d m) a
      → Gives (Arm d m) (a >>= λ r. pure (some r))
  some-Arm d m a k h =
      bind-Gives (Resolves kernel d m) (Arm d m) a _ h (λ r p. pure-Gives (Arm d m) _ (k, p))

  resolve_nonbind-Gives :
      (m : MountInner) (d : GuestInner) → Gives (Arm d m) (resolve_nonbind format kernel m d)
  unfolding resolve_nonbind
  resolve_nonbind-Gives (MountInner.procfs p) d =
      some-Arm d (MountInner.procfs p) _ refl (resolve_procfs-Gives p d)
  resolve_nonbind-Gives (MountInner.mqueue a) d =
      some-Arm d (MountInner.mqueue a) _ refl (resolve_mqueue-Gives a d)
  resolve_nonbind-Gives (MountInner.file f) d = pure-Gives _ _ (refl, refl)
  resolve_nonbind-Gives (MountInner.symlink s) d = pure-Gives _ _ (refl, refl)
  resolve_nonbind-Gives (MountInner.empty_directory o p) d = pure-Gives _ _ (refl, refl)
  resolve_nonbind-Gives (MountInner.tmpfs t) d =
      some-Arm d (MountInner.tmpfs t) _ refl (resolve_tmpfs-Gives t d)
  resolve_nonbind-Gives (MountInner.overlay o) d = pure-Gives _ _ (λ e. cc)
  resolve_nonbind-Gives (MountInner.bind b) d = pure-Gives _ _ (λ e. cc)

  -- What one turn of the loop writes, and all from index `i` on; `n` is the count of slots before.
  abbrev One : Entries → ℕ → ℕ → GuestInner × Mount → Slots → ℕ × Slots → Type 0
  One tree i n x slots (n', slots') =
      (n' ≡ n + count synthetic (x ∷ []))
      × Extends kernel tree slots slots'
      × (kind x.1.inner ≡ synthetic → IsWritten slots' i)

  abbrev pub Wrote : Entries → ℕ → ℕ → Entries → Slots → ℕ × Slots → Type 0
  Wrote tree i n rest slots (n', slots') =
      (n' ≡ n + count synthetic rest)
      × Extends kernel tree slots slots'
      × ((k : ℕ) (e : GuestInner × Mount)
          → get_elem? rest k ≡ some e
          → kind e.1.inner ≡ synthetic
          → IsWritten slots' (i + k))

  write_resolved-Gives :
      (tree : Entries) (i n : ℕ) (x : GuestInner × Mount) (slots : Slots) (r : Option ResolvedMount)
      → get_elem? tree i ≡ some x
      → length tree ≤ slots.capacity
      → Arm x.0 x.1.inner r
      → Gives (One tree i n x slots) (write_resolved format kernel i n r slots)
  write_resolved-Gives tree i n x slots none e c a =
      pure-Gives (One tree i n x slots) (n, slots)
        (
          omega (arith, (count_one synthetic x).1 a),
          Extends-refl kernel tree slots,
          λ k. absurd (a k),
        )
  write_resolved-Gives tree i n x slots (some r) e c (k, right) =
      let (later, here) = put-Extends kernel tree i r slots (x, e, right) in
      bind-Gives (λ slots'. slots' ≡ put i r slots) (One tree i n x slots) (write_slot i r slots) _
        (write_slot-Gives i r slots (omega (arith, get_elem?-lt tree i x e, c)))
        (λ slots' q.
          pure-Gives (One tree i n x slots) (n + 1, slots')
            (omega (arith, (count_one synthetic x).0 k), rw q later, λ _. rw q here))

  Wrote-step :
      (tree : Entries) (i n : ℕ) (x : GuestInner × Mount) (rest : Entries) (slots : Slots)
      (w v : ℕ × Slots)
      → One tree i n x slots w
      → Wrote tree (i + 1) w.0 rest w.1 v
      → Wrote tree i n (x ∷ rest) slots v
  Wrote-step tree i n x rest slots (n', slots') (n'', slots'') (counted, kept, first)
        (counted', kept', others) =
      (
        omega (arith, counted, counted', count_cons synthetic x rest),
        Extends-trans kernel tree slots slots' slots'' kept kept',
        From_cases (IsWritten slots'') (λ e. kind e.1.inner ≡ synthetic) i x rest
            (λ q. kept'.1 i (first q)) others,
      )

  nonbind_loop-Gives :
      (tree : Entries) (i n : ℕ) (rest : Entries) (slots : Slots)
      → From tree i rest
      → length tree ≤ slots.capacity
      → Gives (Wrote tree i n rest slots) (nonbind_loop format kernel i n rest slots)
  unfolding nonbind_loop
  nonbind_loop-Gives tree i n [] slots f c =
      pure-Gives (Wrote tree i n [] slots) (n, slots)
        (count_nil synthetic n, Extends-refl kernel tree slots, λ k e q. cc)
  nonbind_loop-Gives tree i n ((d, m) ∷ rest) slots f c =
      bind-Gives (Arm d m.inner) _ _ _ (resolve_nonbind-Gives m.inner d) (λ r a.
        bind-Gives (One tree i n (d, m) slots) _ _ _
          (write_resolved-Gives tree i n (d, m) slots r (From-head tree i (d, m) rest f) c a)
          (λ w one.
            weaken-Gives (Wrote tree (i + 1) w.0 rest w.1) _ _
              (nonbind_loop-Gives tree (i + 1) w.0 rest w.1 (From-tail tree i (d, m) rest f)
                (omega (arith, one.1.0, c)))
              (λ v all. Wrote-step tree i n (d, m) rest slots w v one all)))

  -- `resolve_nonbind_mappings` comes to an end. Where it returns, it has counted the mounts that are
  -- neither bound nor overlays and has written the slot of each of them, keeping those that were
  -- written, and what it wrote is what the mounts are resolved to.
  pub resolve_nonbind_mappings-Gives :
      (tree : Entries) (len : ℕ) (slots : Slots)
      → Gives (Wrote tree 0 0 tree slots) (resolve_nonbind_mappings format kernel tree len slots)
  unfolding resolve_nonbind_mappings
  resolve_nonbind_mappings-Gives tree len slots = elim (Bool-cases (len == 0)) [
    | inr e ↦ rw e (fail-Gives (Wrote tree 0 0 tree slots) _)
    | inl e ↦ rw e (elim (Bool-cases (leb (length tree) slots.capacity)) [
      | inr c ↦ rw c (fail-Gives (Wrote tree 0 0 tree slots) _)
      | inl c ↦ rw c (
          nonbind_loop-Gives tree 0 0 tree slots (From-all tree)
            (leb→le (length tree) slots.capacity c))
    ])
  ]
