-- ===== src/Cgroups/Values.antt =====
-- Values of a cgroup's interface files: Resource, UclampValue and CpuWeight of
-- crates/bubblebox/src/platform/linux/cgroups/policy.rs. `format` and `format_signed` write numbers in
-- decimal, as the crate itoa and `Display` do.
use layer_cake.Prelude.{
  ℕ, zero, suc, ◌-◌, ◌/◌, ◌%◌, ◌^◌, Bool, Bytes, ◌++◌, length, ltb, leb, ◌&&◌, Option, none, some,
  if◌then◌else◌,
}
use layer_cake.Prelude.Int.{ℤ, pos, negsuc}
use layer_cake.Prelude.Text.{codes}

pub data Resource (T : Type 0) : Type 0 where
  max : Resource T
  value : T → Resource T

-- `into_str`
unfoldable pub into_str : (ℕ → Bytes) → Resource ℕ → Bytes
into_str format max = codes "max"
into_str format (value v) = format v

-- `if b { b"1" } else { b"0" }`
abbrev pub switch : Bool → Bytes
switch b = if b then codes "1" else codes "0"

pub record UclampValue : Type 0 where
  pub into_u16 : ℕ

-- `new` of a clamp.
unfoldable pub clamp_new : ℕ → Option UclampValue
clamp_new v = if leb v 10000 then some (record { into_u16 = v }) else none

unfoldable pub into_parts : UclampValue → ℕ × ℕ
into_parts u = ((u.into_u16 / 100) % 2 ^ 8, (u.into_u16 % 100) % 2 ^ 8)

unfoldable pub zero_fill : ℕ → Bytes → Bytes
zero_fill zero text = text
zero_fill (suc n) text = codes "0" ++ zero_fill n text

-- A number of at least two characters: `{:02}`.
unfoldable pub two_digits : (ℕ → Bytes) → ℕ → Bytes
unfolding zero_fill
two_digits format n = zero_fill (2 - length (format n)) (format n)

-- `format!("{whole}.{fractional:02}")`
unfoldable pub clamp_text : (ℕ → Bytes) → UclampValue → Bytes
unfolding into_parts two_digits
clamp_text format u =
    let (whole, fractional) = into_parts u in
    format whole ++ codes "." ++ two_digits format fractional

-- `CpuWeightInner`
pub data CpuWeight : Type 0 where
  weight : ℕ → CpuWeight
  nice : ℤ → CpuWeight

-- `new`, `new_nice`, `into_weight` and `into_nice` of a weight.
unfoldable pub weight_new : ℕ → Option CpuWeight
weight_new v = if leb 1 v && leb v 10000 then some (weight v) else none

-- `(-20..=19).contains(&value)`
abbrev pub is_nice : ℤ → Bool
is_nice (pos n) = leb n 19
is_nice (negsuc n) = ltb n 20

unfoldable pub new_nice : ℤ → Option CpuWeight
new_nice v = if is_nice v then some (nice v) else none

unfoldable pub into_weight : CpuWeight → Option ℕ
into_weight (weight v) = some v
into_weight (nice v) = none

unfoldable pub into_nice : CpuWeight → Option ℤ
into_nice (weight v) = none
into_nice (nice v) = some v
