-- ===== src/Examples/Mountings.antt =====
-- The mounts of a small tree, resolved by a kernel whose calls all succeed.
use layer_cake.Prelude.{
  ℕ, zero, suc, ◌+◌, ◌/◌, ◌%◌, ◌^◌, ◌≤◌, ◌<◌, ◌≡◌, refl, Bytes, length, [], ◌∷◌, All, true, none,
  some, ok, arith,
}
use layer_cake.Meowix.Act.{done, Call}
use layer_cake.Meowix.Digits.{compute_decimal_digits_u128}
use layer_cake.Meowix.Gives.{◌>>=◌, Gives, pure, ◌>>◌}
use layer_cake.Mounts.{unlimited, percent, UpperDirs}
use layer_cake.Mounts.Sources
use layer_cake.Mounts.Validate.{Entries}
use layer_cake.Mounts.Tree.{MountTree}
use layer_cake.Spawn.Mounts.{Slots, MountKernel, sys, and_close, or_close}
use layer_cake.Spawn.Mounts.Tmpfs.{apply_tmpfs_size}
use layer_cake.Spawn.Mounts.TmpfsLaws.{render, set_inodes, apply_tmpfs_size_lem}
use layer_cake.Spawn.Mounts.Bind.{resolve_bind_mappings}
use layer_cake.Spawn.Mounts.Captured.{collect, total_needed}
use layer_cake.Spawn.Mounts.Detached.{Bound, resolve_bind_mappings-Gives}
use layer_cake.Spawn.Mounts.Resolved.{allocate_mappings, allocate_scratch, resolve_mappings}
use layer_cake.Prelude.Text.{codes}
use layer_cake.Examples.GuestPaths.{path_a, path_ab, path_abc}

-- The state is the next number of a file descriptor.
abbrev fresh : Call ℕ ℕ
fresh n = (ok n, suc n)

abbrev succeed : Call ℕ (Unit {0})
succeed n = (ok tt, n)

abbrev kernel : MountKernel
kernel = record {
  State = ℕ;
  fsopen = λ name flags. fresh;
  fsconfig_set_flag = λ fs key. succeed;
  fsconfig_set_string = λ fs key value. succeed;
  fsconfig_set_fd = λ fs key value. succeed;
  fsconfig_cmd_create = λ fs. succeed;
  fsconfig_cmd_create_excl = λ fs. succeed;
  fsmount = λ fs flags attributes. fresh;
  open_tree = λ dir path flags. fresh;
  open_tree_attr = λ dir path flags attr. fresh;
  unshare = λ flags. succeed;
  setns = λ namespace flags. succeed;
  chdir = λ path. succeed;
  mkdirat = λ dir path mode. succeed;
  openat2 = λ dir path flags resolve. fresh;
  statx = λ n s. (ok (record { has_ino = true; dev_major = 8; dev_minor = 1; ino = 2 }), s);
  close = λ n s. s;
}

-- The decimal digits of a number, the last first.
decimal_digits : ℕ → ℕ → Bytes → Bytes
decimal_digits zero n digits = digits
decimal_digits (suc k) n digits = decimal_digits k (n / 10) ((48 + n % 10) ∷ digits)

decimal : ℕ → Bytes
decimal n = decimal_digits (compute_decimal_digits_u128 n) n []

length-decimal_digits :
    (k n : ℕ) (digits : Bytes) → length (decimal_digits k n digits) ≡ k + length digits
unfolding decimal_digits
length-decimal_digits zero n digits = omega arith
length-decimal_digits (suc k) n digits =
    omega (arith, length-decimal_digits k (n / 10) ((48 + n % 10) ∷ digits))

length-decimal : (n : ℕ) → n < 2 ^ 128 → length (decimal n) ≡ compute_decimal_digits_u128 n
unfolding decimal
length-decimal n h = omega (arith, length-decimal_digits (compute_decimal_digits_u128 n) n [])

abbrev AreDigits : Bytes → Type 0
AreDigits s = All (λ c. (48 ≤ c) × (c ≤ 57)) s

decimal_digits-AreDigits :
    (k n : ℕ) (digits : Bytes) → AreDigits digits → AreDigits (decimal_digits k n digits)
unfolding decimal_digits
decimal_digits-AreDigits zero n digits h = h
decimal_digits-AreDigits (suc k) n digits h =
    decimal_digits-AreDigits k (n / 10) ((48 + n % 10) ∷ digits) ((omega arith, omega arith), h)

decimal-AreDigits : (n : ℕ) → AreDigits (decimal n)
unfolding decimal
decimal-AreDigits n = decimal_digits-AreDigits (compute_decimal_digits_u128 n) n [] tt

apply_tmpfs_size_lem_example : apply_tmpfs_size decimal kernel 3 (percent 50) (some 1000) ≡ (
    sys kernel (
      MountKernel.fsconfig_set_string kernel 3
        (codes "size")
        (render decimal length-decimal decimal-AreDigits (percent 50)))
    >> set_inodes decimal length-decimal decimal-AreDigits kernel 3 (some 1000))
apply_tmpfs_size_lem_example =
    apply_tmpfs_size_lem decimal length-decimal decimal-AreDigits kernel 3 (percent 50) (some 1000)
      (omega arith) (omega arith)

-- A tmpfs at `/a`, an overlay of a host directory and a tmpfs at `/a/b`, and a directory of the
-- host at `/a/b/c`.
abbrev entries : Entries
entries =
    (path_a, Sources.tmpfs unlimited none 0o755)
    ∷ (path_ab, Sources.overlay (5 ∷ []) [] (some (UpperDirs.tmpfs unlimited none)))
    ∷ (path_abc, Sources.read_only_directory 3)
    ∷ []

abbrev tree : MountTree
tree = record { tree = entries; host_mount_count = 2 }

none_pending : ℕ → ℕ
none_pending s = 0

abbrev with_capacity : ℕ → ℕ
with_capacity n = n

resolve_bind_mappings-Gives_example :
    Gives (Bound kernel entries (allocate_mappings with_capacity tree)) (
      resolve_bind_mappings kernel entries 0
        (allocate_mappings with_capacity tree)
        (allocate_scratch with_capacity tree))
unfolding allocate_scratch collect total_needed Sources.tmpfs Sources.overlay
    Sources.read_only_directory
resolve_bind_mappings-Gives_example =
    resolve_bind_mappings-Gives kernel entries 0 (allocate_mappings with_capacity tree)
      (allocate_scratch with_capacity tree) (refl, refl, refl, omega arith, omega arith)

-- That run succeeds.
resolve_mappings_run :
    (o : ℕ × Slots) × ((resolve_mappings with_capacity decimal kernel 1
        (pure tt)
        (pure tt)
        tree
        0).0
      ≡ done o)
unfolding resolve_mappings ◌>>=◌ Sources.tmpfs Sources.overlay Sources.read_only_directory and_close
    or_close
resolve_mappings_run = (_, refl)
