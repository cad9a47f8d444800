-- ===== src/Mounts/Attributes.antt =====
-- `MountAttributes` as `MOUNT_ATTR_*` flags: crates/bubblebox/src/platform/linux/mounts.rs.
use layer_cake.Prelude.{ℕ, ◌≡◌, Bool, true, arith}
use layer_cake.Prelude.Bits.{set_if, bit}
use layer_cake.Mounts.{MountAttributes}

-- include/uapi/linux/mount.h
abbrev pub mount_attr_rdonly : ℕ
mount_attr_rdonly = 0x1

abbrev pub mount_attr_nosuid : ℕ
mount_attr_nosuid = 0x2

abbrev pub mount_attr_nodev : ℕ
mount_attr_nodev = 0x4

abbrev pub mount_attr_noexec : ℕ
mount_attr_noexec = 0x8

abbrev pub mount_attr_nosymfollow : ℕ
mount_attr_nosymfollow = 0x200000

-- `MountAttributes::into_mount_attr`
unfoldable pub into_mount_attr : MountAttributes → ℕ
into_mount_attr a = set_if a.no_symlink_following mount_attr_nosymfollow (
    set_if a.no_execution mount_attr_noexec (
      set_if a.no_devices mount_attr_nodev
        (set_if a.no_setuid mount_attr_nosuid (set_if a.read_only mount_attr_rdonly 0))))

-- The builder methods, and the default.
unfoldable pub default : MountAttributes
default = record {
  read_only = true;
  no_setuid = true;
  no_devices = true;
  no_execution = true;
  no_symlink_following = true;
}

unfoldable pub read_only : Bool → MountAttributes → MountAttributes
read_only b a = record a { read_only = b }

unfoldable pub no_setuid : Bool → MountAttributes → MountAttributes
no_setuid b a = record a { no_setuid = b }

unfoldable pub no_devices : Bool → MountAttributes → MountAttributes
no_devices b a = record a { no_devices = b }

unfoldable pub no_execution : Bool → MountAttributes → MountAttributes
no_execution b a = record a { no_execution = b }

unfoldable pub no_symlink_following : Bool → MountAttributes → MountAttributes
no_symlink_following b a = record a { no_symlink_following = b }

-- In the flags of `into_mount_attr`, bits 0 to 3 and 21 are the five attributes.
pub into_mount_attr_bits :
    (a : MountAttributes)
    → (bit 0 (into_mount_attr a) ≡ a.read_only)
      × (bit 1 (into_mount_attr a) ≡ a.no_setuid)
      × (bit 2 (into_mount_attr a) ≡ a.no_devices)
      × (bit 3 (into_mount_attr a) ≡ a.no_execution)
      × (bit 21 (into_mount_attr a) ≡ a.no_symlink_following)
unfolding into_mount_attr
into_mount_attr_bits a = ground arith
