-- ===== src/Prelude/Bits.antt =====
-- Flag words: `|` of distinct powers of two, with each flag test computed.
use Prim.Native.Nat.{ℕ, ◌^◌, ◌/◌, ◌%◌, bit_or}
use mathlib.Core.Bool.{Bool}
use layer_cake.Prelude.Tests.{◌==◌, if◌then◌else◌}

-- `if b { word |= flag }`
abbrev pub set_if : Bool → ℕ → ℕ → ℕ
set_if b flag word = if b then bit_or word flag else word

-- Whether bit `k` of a word is set.
abbrev pub bit : ℕ → ℕ → Bool
bit k word = word / 2 ^ k % 2 == 1
