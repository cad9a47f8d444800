-- ===== src/Namespaces/Apply.antt =====
-- The files of a new user and time namespace:
-- crates/bubblebox/src/platform/linux/spawn/namespace.rs. `format` and `format_signed` are those of
-- the crate itoa.
use layer_cake.Prelude.{
  ℕ, ◌+◌, ◌*◌, Bool, Bytes, [], ◌∷◌, take, length, leb, Option, none, some, Result, ok, err,
  ◌>>=◌ as after, if◌then◌else◌,
}
use layer_cake.Prelude.Int.{ℤ}
use layer_cake.Prelude.Text.{codes}
use layer_cake.Meowix.Digits.{
  saturate, unsigned_decimal_digits_upper_bound, signed_decimal_digits_upper_bound,
}
use layer_cake.Meowix.Flags.{o_wronly, o_cloexec, o_path, o_directory, resolve_beneath}
use layer_cake.Meowix.Act.{Act}
use layer_cake.Meowix.Gives.{◌>>=◌, ◌>>◌, pure, lift, retried}
use layer_cake.Meowix.Files.{FileKernel, and_drop, write_checked, open_beneath_and_write}
use layer_cake.Spawn.Wire.{PostSpawnGuest, syscall, incomplete_write}
use layer_cake.Spawn.Fmt.{too_small, zeros, write_bytes, write_integer}
use layer_cake.Namespaces.{TimeOffset}

-- `size_offset_buffer`
unfoldable pub size_offset_buffer : ℕ
unfolding unsigned_decimal_digits_upper_bound signed_decimal_digits_upper_bound
size_offset_buffer =
    saturate
      (saturate (signed_decimal_digits_upper_bound 8 + unsigned_decimal_digits_upper_bound 4) + 11)

-- `size_uid_gid_map_buffer`, for ids of 4 bytes
unfoldable pub size_uid_gid_map_buffer : ℕ
unfolding unsigned_decimal_digits_upper_bound
size_uid_gid_map_buffer = saturate (saturate (2 * unsigned_decimal_digits_upper_bound 4) + 3)

-- `buffer.get(..offset)`
unfoldable pub written_part : Bytes × ℕ → Result Bytes PostSpawnGuest
written_part (buffer, offset) =
    if leb offset (length buffer) then ok (take offset buffer) else err too_small

module _ (format : ℕ → Bytes) (format_signed : ℤ → Bytes) where
  -- A line of `timens_offsets`, and one of `uid_map` or `gid_map`.
  unfoldable pub put_offset : Bytes → TimeOffset → Bytes × ℕ → Result (Bytes × ℕ) PostSpawnGuest
  unfolding write_bytes write_integer
  put_offset clock t b = after (write_bytes b clock) (λ b1.
      after (write_integer format_signed b1 t.seconds)
        (λ b2. after (write_bytes b2 (codes " ")) (λ b3. write_integer format b3 t.nanoseconds)))

  unfoldable pub put_map : ℕ → ℕ → Bytes × ℕ → Result (Bytes × ℕ) PostSpawnGuest
  unfolding write_bytes write_integer
  put_map dest source b = after (write_integer format b dest) (λ b1.
      after (write_bytes b1 (codes " "))
        (λ b2. after (write_integer format b2 source) (λ b3. write_bytes b3 (codes " 1"))))

  module _ (files : FileKernel) (fuel : ℕ) where
    open files use {State, openat2}

    abbrev pub Guest : Type 0 → Type 0
    Guest A = Act State PostSpawnGuest A

    abbrev pub write_value : ℕ → Bytes → Guest (Unit {0})
    write_value = write_checked files syscall incomplete_write fuel

    abbrev pub write_below : ℕ → Bytes → Result Bytes PostSpawnGuest → Guest (Unit {0})
    write_below = open_beneath_and_write files syscall incomplete_write fuel

    -- The `if let` on an offset; the result is the buffer.
    unfoldable pub write_offset : ℕ → Bytes → Option TimeOffset → Bytes → Guest Bytes
    unfolding put_offset written_part write_checked
    write_offset fd clock none buffer = pure buffer
    write_offset fd clock (some t) buffer = do
      b ← lift (put_offset clock t (buffer, 0))
      text ← lift (written_part b)
      write_value fd text
      pure b.0

    -- `write_timens_offsets`
    unfoldable pub write_timens_offsets :
        ℕ → Option TimeOffset → Option TimeOffset → Guest (Unit {0})
    unfolding write_offset size_offset_buffer and_drop
    write_timens_offsets proc monotonic boottime = do
      fd ← retried syscall fuel (
          openat2 proc (codes "self/timens_offsets") (o_wronly ∷ o_cloexec ∷ [])
            (resolve_beneath ∷ []))
      and_drop files fd (do
        buffer ← write_offset fd (codes "monotonic ") monotonic (zeros size_offset_buffer)
        buffer' ← write_offset fd (codes "boottime ") boottime buffer
        pure tt)

    -- A map of one id, in the buffer; the result is the buffer.
    unfoldable pub write_map : ℕ → Bytes → ℕ → ℕ → Bytes → Guest Bytes
    unfolding put_map written_part open_beneath_and_write
    write_map self path dest source buffer = do
      b ← lift (put_map dest source (buffer, 0))
      write_below self path (written_part b)
      pure b.0

    -- `write_simple_uid_gid_map`
    unfoldable pub write_simple_uid_gid_map : ℕ → ℕ → ℕ → ℕ → ℕ → Bool → Guest (Unit {0})
    unfolding write_map open_beneath_and_write size_uid_gid_map_buffer and_drop
    write_simple_uid_gid_map proc source_uid source_gid dest_uid dest_gid deny_setgroups = do
      self ← retried syscall fuel (
          openat2 proc (codes "self") (o_path ∷ o_cloexec ∷ o_directory ∷ [])
            (resolve_beneath ∷ []))
      and_drop files self (do
        buffer ←
            write_map self (codes "uid_map") dest_uid source_uid (zeros size_uid_gid_map_buffer)
        if deny_setgroups then write_below self (codes "setgroups") (ok (codes "deny")) else pure tt
        buffer' ← write_map self (codes "gid_map") dest_gid source_gid buffer
        pure tt)
