-- ===== src/Spawn/Mounts/Layers.antt =====
-- What `finish_overlay_mount_resolution` of crates/bubblebox/src/platform/linux/spawn/mounts.rs
-- writes. No index of the detached mounts is out of range.
use layer_cake.Prelude.{ℕ, ◌<◌, ◌≡◌, true, Bytes, get_elem?, some}
use layer_cake.Meowix.Act.{is_intr}
use layer_cake.Meowix.Gives.{Gives}
use layer_cake.Paths.Guest.{GuestInner}
use layer_cake.Mounts.{Mount}
use layer_cake.Mounts.Validate.{Entries}
use layer_cake.Spawn.Mounts.{Flags, MountKernel, Guest, Slots}
use layer_cake.Spawn.Mounts.Sound.{overlaid, kind, count, IsWritten, Extends}

module _ (format : ℕ → Bytes) (kernel : MountKernel) (fuel : ℕ)
    (pending : MountKernel.State kernel → ℕ)
    (openat2_falls : (dir : ℕ) (name : Bytes) (flags resolve : Flags) (s : MountKernel.State kernel)
      → is_intr (MountKernel.openat2 kernel dir name flags resolve s).0 ≡ true
      → pending (MountKernel.openat2 kernel dir name flags resolve s).1 < pending s)
    (enough : (s : MountKernel.State kernel) → pending s < fuel) where
  open kernel use {
    State, fsopen, fsconfig_set_flag, fsconfig_set_fd, fsconfig_cmd_create_excl, mkdirat, openat2,
  }

  abbrev pub Overlaid : Entries → Slots → ℕ × Slots → Type 0
  Overlaid tree slots (n, slots') =
      (n ≡ count overlaid tree)
      × Extends kernel tree slots slots'
      × ((k : ℕ) (e : GuestInner × Mount)
          → get_elem? tree k ≡ some e
          → kind e.1.inner ≡ overlaid
          → IsWritten slots' k)
