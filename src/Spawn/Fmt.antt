-- ===== src/Spawn/Fmt.antt =====
-- Formatting without allocation: crates/bubblebox/src/platform/linux/spawn/fmt.rs, and the buffer
-- for a percentage of crates/bubblebox/src/platform/linux/spawn/mounts.rs.
use layer_cake.Prelude.{
  ℕ, zero, suc, ◌+◌, ◌-◌, ◌^◌, Bytes, length, take, drop, ◌++◌, [], ◌∷◌, Option, none, some, ltb,
  leb, ◌&&◌, Result, ok, err, ok_or, ◌>>=◌, if◌then◌else◌,
}
use layer_cake.Prelude.Text.{codes}
use layer_cake.Meowix.Digits.{saturate, unsigned_decimal_digits_upper_bound}
use layer_cake.Paths.Guest.{WithCStrError}
use layer_cake.Spawn.Wire.{PostSpawnGuest, PostSpawnGuestOther, other}

abbrev pub too_small : PostSpawnGuest
too_small = other PostSpawnGuestOther.buffer_too_small

-- `checked_add` of usize
abbrev pub checked_add : ℕ → ℕ → Option ℕ
checked_add a b = if ltb (a + b) (2 ^ 64) then some (a + b) else none

-- `buffer.get_mut(offset..end)`, with the bytes copied over it
abbrev pub overwrite : Bytes → ℕ → ℕ → Bytes → Option Bytes
overwrite buffer offset end bs =
    if leb offset end && leb end (length buffer)
    then some (take offset buffer ++ bs ++ drop end buffer)
    else none

-- `write_bytes`, on the buffer and the offset
unfoldable pub write_bytes : Bytes × ℕ → Bytes → Result (Bytes × ℕ) PostSpawnGuest
write_bytes (buffer, offset) bs = do
  end ← ok_or (checked_add offset (length bs)) too_small
  written ← ok_or (overwrite buffer offset end bs) too_small
  ok (written, end)

abbrev pub zeros : ℕ → Bytes
zeros zero = []
zeros (suc n) = 0 ∷ zeros n

abbrev pub guest_error : WithCStrError → PostSpawnGuest
guest_error WithCStrError.c_str_buffer_too_small = PostSpawnGuest.c_str_buffer_too_small
guest_error WithCStrError.from_bytes_with_nul_error = PostSpawnGuest.from_bytes_with_nul_error

abbrev pub convert : {A : Type 0} → Result A WithCStrError → Result A PostSpawnGuest
convert (ok a) = ok a
convert (err e) = err (guest_error e)

-- `size_percent_buffer`
unfoldable pub size_percent_buffer : ℕ
unfolding unsigned_decimal_digits_upper_bound
size_percent_buffer = saturate (unsigned_decimal_digits_upper_bound 8 + 2)

-- `write_integer`, where `format` is that of the crate itoa
unfoldable pub write_integer :
    {T : Type 0} → (T → Bytes) → Bytes × ℕ → T → Result (Bytes × ℕ) PostSpawnGuest
unfolding write_bytes
write_integer format b integer = write_bytes b (format integer)

module _ (format : ℕ → Bytes) where
  -- The percentage as a C string, without the null byte that is written behind it.
  unfoldable pub percent_bytes : ℕ → Result Bytes PostSpawnGuest
  unfolding write_bytes write_integer size_percent_buffer
  percent_bytes n = do
    b ← write_integer format (zeros size_percent_buffer, 0) n
    c ← write_bytes b (codes "%" ++ 0 ∷ [])
    ok (take (c.1 - 1) c.0)
