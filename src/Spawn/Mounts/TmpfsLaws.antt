-- ===== src/Spawn/Mounts/TmpfsLaws.antt =====
-- The buffers for numbers of `apply_tmpfs_size` are large enough: it only fails where a call does.
use layer_cake.Prelude.{
  append_assoc, length-drop, take-append, length-append, lt→ltb, ℕ, ◌+◌, ◌-◌, ◌^◌, ◌≤◌, ◌<◌, ◌≡◌,
  refl, ap, sym, ◌∙◌, true, Bytes, length, take, drop, ◌++◌, [], ◌∷◌, All, leb, Option, none, some,
  ok, arith,
}
use layer_cake.Prelude.Text.{codes}
use layer_cake.Meowix.Act.{Act}
use layer_cake.Meowix.Gives.{call, ◌>>=◌, ◌>>◌, pure}
use layer_cake.Meowix.Digits.{
  count_digits, compute_decimal_digits_u128, unsigned_decimal_digits_upper_bound, saturate,
  unsigned_decimal_digits_upper_bound_sound,
}
use layer_cake.Paths.Guest.{has_no_null, with_c_str}
use layer_cake.Mounts.{TmpfsSize, unlimited, bytes, percent}
use layer_cake.Spawn.Fmt.{write_bytes, write_integer, percent_bytes, size_percent_buffer, zeros}
use layer_cake.Spawn.Mounts.{MountKernel, Guest, sys}
use layer_cake.Spawn.Mounts.Tmpfs.{call_with_c_str, apply_size, apply_max_inodes, apply_tmpfs_size}

-- Bytes that fit into the buffer are put at the offset, and the offset is moved behind them.
pub write_bytes_lem :
    (buffer : Bytes) (offset : ℕ) (bs : Bytes)
    → offset + length bs ≤ length buffer
    → length buffer < 2 ^ 64
    → write_bytes (buffer, offset) bs
      ≡ ok (take offset buffer ++ bs ++ drop (offset + length bs) buffer, offset + length bs)
unfolding write_bytes
write_bytes_lem buffer offset bs h b =
    let no_overflow = lt→ltb (offset + length bs) (2 ^ 64) (omega (arith, h, b)) in
    let in_order : leb offset (offset + length bs) ≡ true = ground arith in
    let in_buffer : leb (offset + length bs) (length buffer) ≡ true = ground (arith, h) in
    rw (no_overflow, in_order, in_buffer) refl

buffer_length : size_percent_buffer ≡ 22
unfolding size_percent_buffer unsigned_decimal_digits_upper_bound compute_decimal_digits_u128
    count_digits
buffer_length = refl

bound_u64 : unsigned_decimal_digits_upper_bound 8 ≡ 20
unfolding unsigned_decimal_digits_upper_bound compute_decimal_digits_u128 count_digits
bound_u64 = refl

no_null : (bs : Bytes) → All (λ c. (48 ≤ c) × (c ≤ 57)) bs → has_no_null bs ≡ true
no_null [] h = refl
no_null (c ∷ bs) h = ground (arith, h.0, no_null bs h.1)

-- What stands before the null byte.
cut :
    (xs rest tail : Bytes) (n : ℕ)
    → length xs ≡ n
    → take (n + 2 - 1) (take n (xs ++ rest) ++ (37 ∷ 0 ∷ []) ++ tail) ≡ xs ++ 37 ∷ []
cut xs rest tail n e = rw (take-append n xs rest e) (
    let same : n + 2 - 1 ≡ n + 1 = omega arith in
    rw same (
      ap (take (n + 1))
        (append_assoc xs (37 ∷ 0 ∷ []) tail ∙ sym (append_assoc xs (37 ∷ []) (0 ∷ tail)))
      ∙ take-append (n + 1) (xs ++ 37 ∷ []) (0 ∷ tail)
          (length-append xs (37 ∷ []) ∙ omega (arith, e))))

module _ (format : ℕ → Bytes)
    (format_length : (n : ℕ) → n < 2 ^ 128 → length (format n) ≡ compute_decimal_digits_u128 n)
    (format_digits : (n : ℕ) → All (λ c. (48 ≤ c) × (c ≤ 57)) (format n)) where
  format_short : (n : ℕ) → n < 2 ^ 64 → length (format n) ≤ 20
  format_short n h =
      let short = unsigned_decimal_digits_upper_bound_sound 8 n (omega arith) h in
      omega (arith, format_length n (omega (arith, h)), short, bound_u64)

  percent_lem : (n : ℕ) → n < 2 ^ 64 → percent_bytes format n ≡ ok (format n ++ codes "%")
  unfolding percent_bytes write_integer
  percent_lem n h =
      let short = format_short n h in
      let first = write_bytes_lem (zeros 22) 0 (format n) (omega (arith, short)) (omega arith) in
      let number = format n ++ drop (0 + length (format n)) (zeros 22) in
      let room : length number ≡ 22 =
        length-append (format n) (drop (0 + length (format n)) (zeros 22))
        ∙ (let rest = length-drop (0 + length (format n)) (zeros 22) in
            omega (arith, rest, short)) in
      let second =
        write_bytes_lem number (0 + length (format n)) (codes "%" ++ 0 ∷ [])
          (omega (arith, room, short)) (omega (arith, room)) in
      rw (buffer_length, first, second)
        (ap ok (
          cut (format n) (drop (0 + length (format n)) (zeros 22))
            (drop (0 + length (format n) + 2) number) (0 + length (format n)) (omega arith)))

  c_str_lem :
      {S : Type 0} (n : ℕ) (f : Bytes → Act S _ (Unit {0}))
      → n < 2 ^ 64
      → call_with_c_str (saturate (unsigned_decimal_digits_upper_bound 8 + 1)) (format n) f
        ≡ f (format n)
  unfolding call_with_c_str with_c_str ◌>>=◌
  c_str_lem n f h =
      rw
        (
          bound_u64,
          no_null (format n) (format_digits n),
          lt→ltb (length (format n)) 21 (omega (arith, format_short n h)),
        )
        refl

  -- The text of a size, and of the number of inodes.
  abbrev pub render : TmpfsSize → Bytes
  render unlimited = codes "0"
  render (bytes n) = format n
  render (percent n) = format n ++ codes "%"

  abbrev pub IsU64 : TmpfsSize → Type 0
  IsU64 unlimited = Unit
  IsU64 (bytes n) = n < 2 ^ 64
  IsU64 (percent n) = n < 2 ^ 64

  abbrev pub IsU64Option : Option ℕ → Type 0
  IsU64Option none = Unit
  IsU64Option (some n) = n < 2 ^ 64

  module _ (kernel : MountKernel) where
    open kernel use {State, fsconfig_set_string}

    abbrev pub set_inodes : ℕ → Option ℕ → Guest kernel (Unit {0})
    set_inodes fs none = pure tt
    set_inodes fs (some n) = sys kernel (fsconfig_set_string fs (codes "nr_inodes") (format n))

    apply_size_lem :
        (fs : ℕ) (size : TmpfsSize)
        → IsU64 size
        → apply_size format kernel fs size
          ≡ sys kernel (fsconfig_set_string fs (codes "size") (render size))
    unfolding apply_size call ◌>>=◌
    apply_size_lem fs unlimited h = refl
    apply_size_lem fs (bytes n) h = c_str_lem n _ h
    apply_size_lem fs (percent n) h = rw (percent_lem n h) refl

    apply_max_inodes_lem :
        (fs : ℕ) (inodes : Option ℕ)
        → IsU64Option inodes
        → apply_max_inodes format kernel fs inodes ≡ set_inodes fs inodes
    unfolding apply_max_inodes
    apply_max_inodes_lem fs none h = refl
    apply_max_inodes_lem fs (some n) h = c_str_lem n _ h

    -- Where `format` writes a number with its decimal digits, and for values of 64 bits,
    -- `apply_tmpfs_size` does no more than the calls of fsconfig: it sets `size` to 0, to the
    -- number of bytes or to the percentage and its sign, and then `nr_inodes` if a number is given.
    -- No buffer is too small.
    pub apply_tmpfs_size_lem :
        (fs : ℕ) (size : TmpfsSize) (inodes : Option ℕ)
        → IsU64 size
        → IsU64Option inodes
        → apply_tmpfs_size format kernel fs size inodes ≡ (
            sys kernel (fsconfig_set_string fs (codes "size") (render size))
            >> set_inodes fs inodes)
    unfolding apply_tmpfs_size
    apply_tmpfs_size_lem fs size inodes h k =
        rw (apply_size_lem fs size h, apply_max_inodes_lem fs inodes k) refl
