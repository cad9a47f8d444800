-- ===== src/Spawn/Mounts/Tmpfs.antt =====
-- `apply_tmpfs_size` of crates/bubblebox/src/platform/linux/spawn/mounts.rs. `format` is that of
-- the crate itoa.
use layer_cake.Prelude.{ℕ, ◌+◌, Bytes, Option, none, some, ok}
use layer_cake.Prelude.Text.{codes}
use layer_cake.Meowix.Act.{Act}
use layer_cake.Meowix.Gives.{◌>>=◌, ◌>>◌, pure, lift}
use layer_cake.Meowix.Digits.{saturate, unsigned_decimal_digits_upper_bound}
use layer_cake.Paths.Guest.{with_c_str}
use layer_cake.Mounts.{TmpfsSize, unlimited, bytes, percent}
use layer_cake.Spawn.Wire.{PostSpawnGuest}
use layer_cake.Spawn.Fmt.{convert, percent_bytes}
use layer_cake.Spawn.Mounts.{MountKernel, Guest, sys}

-- `with_c_str::<N, _, _, PostSpawnGuestError>` with a closure that makes calls.
unfoldable pub call_with_c_str :
    {S A : Type 0} → ℕ → Bytes → (Bytes → Act S PostSpawnGuest A) → Act S PostSpawnGuest A
unfolding with_c_str
call_with_c_str n s f = lift (convert (with_c_str n s ok)) >>= f

module _ (format : ℕ → Bytes) (kernel : MountKernel) where
  open kernel use {State, fsconfig_set_string}

  unfoldable pub apply_size : ℕ → TmpfsSize → Guest kernel (Unit {0})
  unfolding call_with_c_str percent_bytes unsigned_decimal_digits_upper_bound
  apply_size fs unlimited = sys kernel (fsconfig_set_string fs (codes "size") (codes "0"))
  apply_size fs (bytes n) =
      call_with_c_str (saturate (unsigned_decimal_digits_upper_bound 8 + 1)) (format n)
        (λ value. sys kernel (fsconfig_set_string fs (codes "size") value))
  apply_size fs (percent n) =
      lift (percent_bytes format n)
      >>= (λ value. sys kernel (fsconfig_set_string fs (codes "size") value))

  unfoldable pub apply_max_inodes : ℕ → Option ℕ → Guest kernel (Unit {0})
  unfolding call_with_c_str unsigned_decimal_digits_upper_bound
  apply_max_inodes fs none = pure tt
  apply_max_inodes fs (some n) =
      call_with_c_str (saturate (unsigned_decimal_digits_upper_bound 8 + 1)) (format n)
        (λ value. sys kernel (fsconfig_set_string fs (codes "nr_inodes") value))

  -- `apply_tmpfs_size`
  unfoldable pub apply_tmpfs_size : ℕ → TmpfsSize → Option ℕ → Guest kernel (Unit {0})
  unfolding apply_size apply_max_inodes
  apply_tmpfs_size fs size max_inodes = do apply_size fs size; apply_max_inodes fs max_inodes
