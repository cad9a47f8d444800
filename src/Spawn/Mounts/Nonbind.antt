-- ===== src/Spawn/Mounts/Nonbind.antt =====
-- `resolve_nonbind_mappings` of crates/bubblebox/src/platform/linux/spawn/mounts.rs.
use layer_cake.Prelude.{
  ℕ, zero, suc, ◌+◌, ◌/◌, ◌%◌, ◌^◌, true, Bytes, [], ◌∷◌, length, Option, none, some, leb, ◌==◌,
  if◌then◌else◌,
}
use layer_cake.Prelude.Text.{codes}
use layer_cake.Meowix.Gives.{◌>>=◌, ◌>>◌, pure, fail}
use layer_cake.Meowix.Digits.{unsigned_decimal_digits_upper_bound}
use layer_cake.Paths.Guest.{GuestInner}
use layer_cake.Mounts.{
  Mode, MountInner, ProcHidepid, off, no_access, invisible, ptraceable, ProcSubset, full, pid,
  ProcPidNamespace, guest, Procfs, Tmpfs,
}
use layer_cake.Mounts.Attributes.{into_mount_attr}
use layer_cake.Mounts.Validate.{Entries}
use layer_cake.Spawn.Wire.{other, nonzero_resolved_len}
use layer_cake.Spawn.Fmt.{too_small}
use layer_cake.Spawn.Mounts.{
  MountKernel, fsopen_cloexec, fsmount_cloexec, Guest, sys, and_close, ResolvedMount, Slots,
  write_slot,
}
use layer_cake.Spawn.Mounts.Tmpfs.{call_with_c_str, apply_tmpfs_size}

abbrev pub hidepid_name : ProcHidepid → Bytes
hidepid_name off = codes "off"
hidepid_name no_access = codes "noaccess"
hidepid_name invisible = codes "invisible"
hidepid_name ptraceable = codes "ptraceable"

-- The loop over `mode.iter_mut().rev().skip(1)`: `n` digits, the last first. `& 0o7` is the
-- remainder by 8, `>>= 3` the quotient.
unfoldable pub mode_digits : ℕ → Mode → Bytes → Bytes
mode_digits zero permissions digits = digits
mode_digits (suc n) permissions digits =
    mode_digits n (permissions / 8) ((48 + permissions % 8) ∷ digits)

-- The text of `permissions.bits() & 0o7777`.
unfoldable pub mode_text : Mode → Bytes
unfolding mode_digits
mode_text permissions = mode_digits 4 (permissions % 2 ^ 12) []

module _ (format : ℕ → Bytes) (kernel : MountKernel) where
  open kernel use {
    State, fsopen, fsconfig_set_string, fsconfig_set_fd, fsconfig_cmd_create,
    fsconfig_cmd_create_excl, fsmount,
  }

  unfoldable pub set_gid : ℕ → Option ℕ → Guest kernel (Unit {0})
  unfolding call_with_c_str unsigned_decimal_digits_upper_bound
  set_gid fs none = pure tt
  set_gid fs (some n) =
      call_with_c_str (unsigned_decimal_digits_upper_bound 4 + 1) (format n)
        (λ value. sys kernel (fsconfig_set_string fs (codes "gid") value))

  abbrev pub set_subset : ℕ → ProcSubset → Guest kernel (Unit {0})
  set_subset fs full = pure tt
  set_subset fs pid = sys kernel (fsconfig_set_string fs (codes "subset") (codes "pid"))

  abbrev pub set_pidns : ℕ → ProcPidNamespace → Guest kernel (Unit {0})
  set_pidns fs guest = pure tt
  set_pidns fs (ProcPidNamespace.fd n) = sys kernel (fsconfig_set_fd fs (codes "pidns") n)

  -- `ResolvedMount::Fd` of a new mount.
  abbrev pub mounted : ℕ → ℕ → GuestInner → Guest kernel ResolvedMount
  mounted fs attributes destination = do
    mount ← sys kernel (fsmount fs (fsmount_cloexec ∷ []) attributes)
    pure (ResolvedMount.fd mount destination true)

  -- The arms of the `match`.
  unfoldable pub resolve_procfs : Procfs → GuestInner → Guest kernel ResolvedMount
  unfolding set_gid into_mount_attr
  resolve_procfs p destination = do
    fs ← sys kernel (fsopen (codes "proc") (fsopen_cloexec ∷ []))
    and_close kernel fs (do
      sys kernel (fsconfig_set_string fs (codes "hidepid") (hidepid_name p.hidepid))
      set_gid fs p.gid
      set_subset fs p.subset
      set_pidns fs p.namespace
      sys kernel (fsconfig_cmd_create_excl fs)
      mounted fs (into_mount_attr p.attributes) destination)

  unfoldable pub resolve_mqueue : ℕ → GuestInner → Guest kernel ResolvedMount
  resolve_mqueue attributes destination = do
    fs ← sys kernel (fsopen (codes "mqueue") (fsopen_cloexec ∷ []))
    and_close kernel fs (do sys kernel (fsconfig_cmd_create fs); mounted fs attributes destination)

  unfoldable pub resolve_tmpfs : Tmpfs → GuestInner → Guest kernel ResolvedMount
  unfolding apply_tmpfs_size mode_text into_mount_attr
  resolve_tmpfs t destination = do
    fs ← sys kernel (fsopen (codes "tmpfs") (fsopen_cloexec ∷ []))
    and_close kernel fs (do
      apply_tmpfs_size format kernel fs t.size t.max_inodes
      sys kernel (fsconfig_set_string fs (codes "mode") (mode_text t.permissions))
      sys kernel (fsconfig_cmd_create_excl fs)
      mounted fs (into_mount_attr t.attributes) destination)

  abbrev resolved : ResolvedMount → Guest kernel (Option ResolvedMount)
  resolved r = pure (some r)

  -- The `match`; `none` is its `continue`.
  unfoldable pub resolve_nonbind : MountInner → GuestInner → Guest kernel (Option ResolvedMount)
  unfolding resolve_procfs resolve_mqueue resolve_tmpfs into_mount_attr
  resolve_nonbind (MountInner.procfs p) destination = resolve_procfs p destination >>= resolved
  resolve_nonbind (MountInner.mqueue attributes) destination =
      resolve_mqueue (into_mount_attr attributes) destination >>= resolved
  resolve_nonbind (MountInner.file f) destination = resolved (ResolvedMount.file f destination)
  resolve_nonbind (MountInner.symlink source) destination =
      resolved (ResolvedMount.symlink source destination)
  resolve_nonbind (MountInner.empty_directory owner permissions) destination =
      resolved (ResolvedMount.directory owner permissions destination)
  resolve_nonbind (MountInner.tmpfs t) destination = resolve_tmpfs t destination >>= resolved
  resolve_nonbind (MountInner.overlay o) destination = pure none
  resolve_nonbind (MountInner.bind b) destination = pure none

  -- What follows the `match`.
  abbrev pub write_resolved : ℕ → ℕ → Option ResolvedMount → Slots → Guest kernel (ℕ × Slots)
  write_resolved i n none slots = pure (n, slots)
  write_resolved i n (some r) slots = do slots' ← write_slot i r slots; pure (n + 1, slots')

  -- The `for`: `i` counts the entries, `n` those that are written.
  unfoldable pub nonbind_loop : ℕ → ℕ → Entries → Slots → Guest kernel (ℕ × Slots)
  unfolding resolve_nonbind write_slot
  nonbind_loop i n [] slots = pure (n, slots)
  nonbind_loop i n ((destination, source) ∷ rest) slots = do
    r ← resolve_nonbind source.inner destination
    w ← write_resolved i n r slots
    nonbind_loop (i + 1) w.0 rest w.1

  -- `resolve_nonbind_mappings`: the number of slots that it wrote, and the slots. `len` is the
  -- length of the vector whose spare capacity they are.
  unfoldable pub resolve_nonbind_mappings : Entries → ℕ → Slots → Guest kernel (ℕ × Slots)
  unfolding nonbind_loop
  resolve_nonbind_mappings mappings len slots =
      if len == 0
      then (if leb (length mappings) slots.capacity
          then nonbind_loop 0 0 mappings slots
          else fail too_small)
      else fail (other nonzero_resolved_len)
