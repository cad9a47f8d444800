-- ===== src/Prelude/Int.antt =====
-- Signed machine integers: a value in two's complement, over the native numbers.
use Prim.Native.Nat.{ℕ, zero, suc, ◌-◌, ◌^◌, ◌<◌, compare, Ordering}
use layer_cake.Prelude.Tests.{ltb, if◌then◌else◌}

-- `negsuc n` is -(n + 1).
pub data ℤ : Type 0 where
  pos : ℕ → ℤ
  negsuc : ℕ → ℤ

-- `cmp` on a signed integer type.
unfoldable pub cmp : ℤ → ℤ → Ordering
cmp (pos a) (pos b) = compare a b
cmp (pos a) (negsuc b) = Ordering.gt
cmp (negsuc a) (pos b) = Ordering.lt
cmp (negsuc a) (negsuc b) = compare b a

-- The value is one of a `w`-bit signed type.
abbrev pub IsSigned : ℕ → ℤ → Type 0
IsSigned w (pos n) = n < 2 ^ (w - 1)
IsSigned w (negsuc n) = n < 2 ^ (w - 1)

-- `as u<w>` of a signed value, and `as i<w>` of an unsigned one below 2 ^ w.
unfoldable pub to_unsigned : ℕ → ℤ → ℕ
to_unsigned w (pos n) = n
to_unsigned w (negsuc n) = 2 ^ w - 1 - n

unfoldable pub to_signed : ℕ → ℕ → ℤ
to_signed w n = if ltb n (2 ^ (w - 1)) then pos n else negsuc (2 ^ w - 1 - n)

-- `-x`, which wraps only at the least value of a type.
unfoldable pub neg : ℤ → ℤ
neg (pos zero) = pos 0
neg (pos (suc n)) = negsuc n
neg (negsuc n) = pos (suc n)
