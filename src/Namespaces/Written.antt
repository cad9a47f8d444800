-- ===== src/Namespaces/Written.antt =====
-- The buffers of crates/bubblebox/src/platform/linux/spawn/namespace.rs are large enough, so that
-- only the calls of it are left.
use layer_cake.Prelude.{
  ℕ, zero, suc, ◌+◌, ◌^◌, ◌≤◌, ◌<◌, ◌≡◌, refl, ap, true, Bytes, [], ◌++◌, length, length-append,
  leb, ok, arith,
}
use layer_cake.Prelude.Int.{ℤ, IsSigned}
use layer_cake.Prelude.Text.{codes}
use layer_cake.Prelude.Buffers.{Holds, splice, splice-Holds}
use layer_cake.Meowix.Digits.{
  count_digits, compute_decimal_digits_u128, unsigned_decimal_digits_upper_bound,
  signed_decimal_digits_upper_bound,
}
use layer_cake.Spawn.Fmt.{zeros, write_bytes, write_integer}
use layer_cake.Spawn.Mounts.TmpfsLaws.{write_bytes_lem}
use layer_cake.Namespaces.{TimeOffset}
use layer_cake.Namespaces.Apply.{
  size_offset_buffer, size_uid_gid_map_buffer, written_part, put_offset, put_map,
}

fresh-Holds : (n : ℕ) (buffer : Bytes) → length buffer ≡ n → Holds n [] (buffer, 0)
fresh-Holds n buffer h = record { offset = refl; beginning = refl; size = h }

write_bytes-Holds :
    (n : ℕ) (text : Bytes) (b : Bytes × ℕ) (bs : Bytes)
    → n < 2 ^ 64
    → length text + length bs ≤ n
    → Holds n text b
    → (b' : Bytes × ℕ) × (write_bytes b bs ≡ ok b') × Holds n (text ++ bs) b'
write_bytes-Holds n text (buffer, offset) bs small room h =
    let fits : offset + length bs ≤ length buffer = omega (arith, room, h.offset, h.size) in
    (
      splice (buffer, offset) bs,
      write_bytes_lem buffer offset bs fits (omega (arith, small, h.size)),
      splice-Holds n text (buffer, offset) bs room h,
    )

pub part-Holds :
    (n : ℕ) (text : Bytes) (b : Bytes × ℕ)
    → length text ≤ n
    → Holds n text b
    → written_part b ≡ ok text
unfolding written_part
part-Holds n text (buffer, offset) room h =
    let within : leb offset (length buffer) ≡ true = ground (arith, h.offset, h.size, room) in
    rw within (ap ok h.beginning)

pub offset_size : size_offset_buffer ≡ 41
unfolding size_offset_buffer signed_decimal_digits_upper_bound unsigned_decimal_digits_upper_bound
    compute_decimal_digits_u128 count_digits
offset_size = refl

pub map_size : size_uid_gid_map_buffer ≡ 23
unfolding size_uid_gid_map_buffer unsigned_decimal_digits_upper_bound compute_decimal_digits_u128
    count_digits
map_size = refl

pub length-zeros : (n : ℕ) → length (zeros n) ≡ n
length-zeros zero = refl
length-zeros (suc n) = omega (arith, length-zeros n)

-- Numbers are written with as many characters as their types may need.
module _ (format : ℕ → Bytes) (format_signed : ℤ → Bytes)
    (format_u32 : (n : ℕ) → n < 2 ^ 32 → length (format n) ≤ 10)
    (format_i64 : (z : ℤ) → IsSigned 64 z → length (format_signed z) ≤ 20) where
  abbrev pub offset_text : Bytes → TimeOffset → Bytes
  offset_text clock t = clock ++ format_signed t.seconds ++ codes " " ++ format t.nanoseconds

  abbrev pub map_text : ℕ → ℕ → Bytes
  map_text dest source = format dest ++ codes " " ++ format source ++ codes " 1"

  abbrev pub IsOffset : TimeOffset → Type 0
  IsOffset t = IsSigned 64 t.seconds × (t.nanoseconds < 2 ^ 32)

  pub put_offset-Holds :
      (clock : Bytes) (t : TimeOffset) (buffer : Bytes)
      → length clock ≤ 10
      → IsOffset t
      → length buffer ≡ 41
      → (b : Bytes × ℕ) × (put_offset format format_signed clock t (buffer, 0) ≡ ok b)
        × Holds 41 (offset_text clock t) b
        × (length (offset_text clock t) ≤ 41)
  unfolding put_offset write_integer
  put_offset-Holds clock t buffer short valid size =
      let seconds = format_signed t.seconds in
      let s = format_i64 t.seconds valid.0 in
      let n = format_u32 t.nanoseconds valid.1 in
      let l1 = length-append clock seconds in
      let l2 = length-append (clock ++ seconds) (codes " ") in
      let l3 = length-append (clock ++ seconds ++ codes " ") (format t.nanoseconds) in
      let (b1, e1, h1) =
        write_bytes-Holds 41 [] (buffer, 0) clock (omega arith) (omega (arith, short))
          (fresh-Holds 41 buffer size) in
      let (b2, e2, h2) =
        write_bytes-Holds 41 clock b1 seconds (omega arith) (omega (arith, s, short)) h1 in
      let (b3, e3, h3) =
        write_bytes-Holds 41 (clock ++ seconds) b2 (codes " ") (omega arith)
          (omega (arith, l1, s, short)) h2 in
      let (b4, e4, h4) =
        write_bytes-Holds 41 (clock ++ seconds ++ codes " ") b3 (format t.nanoseconds) (omega arith)
          (omega (arith, l1, l2, s, n, short)) h3 in
      (b4, rw (e1, e2, e3) e4, h4, omega (arith, l1, l2, l3, s, n, short))

  pub put_map-Holds :
      (dest source : ℕ) (buffer : Bytes)
      → dest < 2 ^ 32
      → source < 2 ^ 32
      → length buffer ≡ 23
      → (b : Bytes × ℕ) × (put_map format format_signed dest source (buffer, 0) ≡ ok b)
        × Holds 23 (map_text dest source) b
        × (length (map_text dest source) ≤ 23)
  unfolding put_map write_integer
  put_map-Holds dest source buffer d s size =
      let ld = format_u32 dest d in
      let ls = format_u32 source s in
      let l1 = length-append (format dest) (codes " ") in
      let l2 = length-append (format dest ++ codes " ") (format source) in
      let l3 = length-append (format dest ++ codes " " ++ format source) (codes " 1") in
      let (b1, e1, h1) =
        write_bytes-Holds 23 [] (buffer, 0) (format dest) (omega arith) (omega (arith, ld))
          (fresh-Holds 23 buffer size) in
      let (b2, e2, h2) =
        write_bytes-Holds 23 (format dest) b1 (codes " ") (omega arith) (omega (arith, ld)) h1 in
      let (b3, e3, h3) =
        write_bytes-Holds 23 (format dest ++ codes " ") b2 (format source) (omega arith)
          (omega (arith, l1, ld, ls)) h2 in
      let (b4, e4, h4) =
        write_bytes-Holds 23 (format dest ++ codes " " ++ format source) b3 (codes " 1")
          (omega arith) (omega (arith, l1, l2, ld, ls)) h3 in
      (b4, rw (e1, e2, e3) e4, h4, omega (arith, l1, l2, l3, ld, ls))
