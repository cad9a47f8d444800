-- ===== src/Prelude/Buffers.antt =====
-- Buffers that are filled from the beginning, with the offset behind what has been written.
use Prim.Native.Nat.{ℕ, ◌+◌, ◌≤◌}
use mathlib.Core.Path.{◌≡◌, ap, sym, ◌∙◌}
use mathlib.Core.List.{◌++◌}
use native.Mathlib.Omega.{arith}
use layer_cake.Prelude.Lists.{Bytes, take, drop, length, length-append, length-drop, take-append}

-- The text has been put at the beginning of a buffer of `n` bytes.
pub record Holds (n : ℕ) (text : Bytes) (b : Bytes × ℕ) : Type 0 where
  pub offset : b.1 ≡ length text
  pub beginning : take b.1 b.0 ≡ text
  pub size : length b.0 ≡ n

-- The bytes at the offset are replaced.
abbrev pub splice : Bytes × ℕ → Bytes → Bytes × ℕ
splice (buffer, offset) bs =
    (take offset buffer ++ bs ++ drop (offset + length bs) buffer, offset + length bs)

pub splice-Holds :
    (n : ℕ) (text : Bytes) (b : Bytes × ℕ) (bs : Bytes)
    → length text + length bs ≤ n
    → Holds n text b
    → Holds n (text ++ bs) (splice b bs)
splice-Holds n text (buffer, offset) bs room h =
    let front : length (take offset buffer ++ bs) ≡ offset + length bs =
      length-append (take offset buffer) bs
      ∙ ap (λ k. k + length bs) (ap length h.beginning ∙ sym h.offset) in
    let fits : offset + length bs ≤ length buffer = omega (arith, room, h.offset, h.size) in
    record {
      offset = omega (arith, h.offset, length-append text bs);
      beginning =
          take-append (offset + length bs) (take offset buffer ++ bs)
            (drop (offset + length bs) buffer) front
          ∙ ap (λ x. x ++ bs) h.beginning;
      size =
          length-append (take offset buffer ++ bs) (drop (offset + length bs) buffer)
          ∙ omega (arith, front, fits, h.size, length-drop (offset + length bs) buffer);
    }
