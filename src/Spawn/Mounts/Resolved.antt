-- ===== src/Spawn/Mounts/Resolved.antt =====
-- All mounts of a guest are resolved: the vectors that `clone_into` of
-- crates/bubblebox/src/platform/linux/spawn/mod.rs allocates, and the three functions that
-- `guest_post_clone` fills them with.
use layer_cake.Prelude.{
  ℕ, ◌+◌, ◌≤◌, ◌≡◌, Bytes, [], ◌∷◌, length, get_elem?, Option, none, some, ◌==◌, if◌then◌else◌,
  arith,
}
use layer_cake.Meowix.Gives.{Gives, ◌>>=◌, ◌>>◌, pure, fail}
use layer_cake.Paths.Guest.{GuestInner}
use layer_cake.Mounts.{UpperDirs, MountInner, Mount}
use layer_cake.Mounts.Validate.{upper_count, Entries, host_mounts}
use layer_cake.Mounts.Valid.{total}
use layer_cake.Mounts.Tree.{MountTree, size}
use layer_cake.Spawn.Wire.{other, mappings_length_mismatch}
use layer_cake.Spawn.Mounts.{MountKernel, Guest, Bounded, Slots, ResolvedMount}
use layer_cake.Spawn.Mounts.Nonbind.{resolve_nonbind_mappings}
use layer_cake.Spawn.Mounts.Capture.{upper_parent, Scratch}
use layer_cake.Spawn.Mounts.Bind.{resolve_bind_mappings}
use layer_cake.Spawn.Mounts.Overlays.{finish_overlay_mount_resolution}
use layer_cake.Spawn.Mounts.Captured.{
  total_needed, total_needed-append, overlay_of, overlays_of, collect,
}
use layer_cake.Spawn.Mounts.Sound.{Resolves, Sound}

-- `Vec::with_capacity`, which may allocate more than it is asked for.
module _ (with_capacity : ℕ → ℕ) where
  abbrev empty_vec : {A : Type 0} → ℕ → Bounded A
  empty_vec n = record { capacity = with_capacity n; elements = [] }

  unfoldable pub allocate_mappings : MountTree → Slots
  unfolding size
  allocate_mappings t = record { capacity = with_capacity (size t); written = λ i. none }

  unfoldable pub allocate_scratch : MountTree → Scratch
  unfolding size
  allocate_scratch t = record {
    namespace_fds = empty_vec (size t);
    overlay_fds = empty_vec t.host_mount_count;
    overlay_mounts = empty_vec (size t);
  }

  -- The steps of `guest_post_clone` that resolve mounts; what it does between them is a parameter.
  -- The result is the length that is set, and the slots.
  unfoldable pub resolve_mappings :
      (ℕ → Bytes)
      → (kernel : MountKernel) → ℕ
      → Guest kernel (Unit {0})
      → Guest kernel (Unit {0})
      → MountTree
      → Guest kernel (ℕ × Slots)
  unfolding allocate_mappings allocate_scratch size resolve_bind_mappings resolve_nonbind_mappings
      finish_overlay_mount_resolution
  resolve_mappings format kernel fuel set_up_proc set_up_time t = do
    b ← resolve_bind_mappings kernel t.tree 0 (allocate_mappings t) (allocate_scratch t)
    set_up_proc
    o ←
        finish_overlay_mount_resolution format kernel fuel b.1 b.2.overlay_fds.elements
          b.2.overlay_mounts.elements
    set_up_time
    r ← resolve_nonbind_mappings format kernel t.tree 0 o.1
    if b.0 + o.0 + r.0 == size t then pure (size t, r.1) else fail (other mappings_length_mismatch)

upper_le : (u : Option UpperDirs) → length (upper_parent u) ≤ upper_count u
upper_le none = omega arith
upper_le (some (UpperDirs.fds u)) = omega arith
upper_le (some (UpperDirs.tmpfs s n)) = omega arith

needed_le :
    (i : ℕ) (d : GuestInner) (m : MountInner) → total_needed (overlay_of i d m) ≤ host_mounts m
unfolding total_needed host_mounts
needed_le i d (MountInner.overlay o) = omega (arith, upper_le o.upperdirs)
needed_le i d (MountInner.bind b) = omega arith
needed_le i d (MountInner.procfs p) = omega arith
needed_le i d (MountInner.mqueue a) = omega arith
needed_le i d (MountInner.file f) = omega arith
needed_le i d (MountInner.symlink l) = omega arith
needed_le i d (MountInner.empty_directory o p) = omega arith
needed_le i d (MountInner.tmpfs t) = omega arith

-- The count of host mounts that validation takes is room enough for what overlays need.
pub total_needed-le : (i : ℕ) (m : Entries) → total_needed (overlays_of i m) ≤ total m
unfolding collect total_needed total
total_needed-le i [] = omega arith
total_needed-le i ((d, m) ∷ rest) = omega (
  arith,
  total_needed-append (overlay_of i d m.inner) (overlays_of (i + 1) rest),
  needed_le i d m.inner,
  total_needed-le (i + 1) rest,
)

-- Every slot below the length is written, with what its mount is resolved to.
abbrev pub AllResolved : MountKernel → Entries → ℕ × Slots → Type 0
AllResolved kernel tree (n, slots) =
    (n ≡ length tree)
    × ((i : ℕ) (e : GuestInner × Mount)
        → get_elem? tree i ≡ some e
        → (r : ResolvedMount) × (slots.written i ≡ some r) × Resolves kernel e.0 e.1.inner r)
