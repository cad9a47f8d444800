-- ===== src/Cgroups/Clamps.antt =====
-- The clamps of crates/bubblebox/src/platform/linux/cgroups/policy.rs, as they are written.
use layer_cake.Prelude.{
  ℕ, zero, suc, ◌+◌, ◌-◌, ◌*◌, ◌≤◌, ◌<◌, ◌≡◌, refl, Bool-cases, Bytes, ◌++◌, length, length-append,
  leb, some, inl, inr, arith,
}
use layer_cake.Prelude.Text.{codes}
use layer_cake.Cgroups.Values.{
  UclampValue, clamp_new, into_parts, zero_fill, two_digits, clamp_text,
}

length-zero_fill : (n : ℕ) (text : Bytes) → length (zero_fill n text) ≡ n + length text
unfolding zero_fill
length-zero_fill zero text = omega arith
length-zero_fill (suc n) text =
    omega (arith, length-append (codes "0") (zero_fill n text), length-zero_fill n text)

length-two_digits :
    (format : ℕ → Bytes) (n : ℕ) → length (format n) ≤ 2 → length (two_digits format n) ≡ 2
unfolding two_digits
length-two_digits format n h = omega (arith, length-zero_fill (2 - length (format n)) (format n), h)

-- A clamp that `new` accepts has the value that is given, of at most 10000.
clamp_new-within : (v : ℕ) (u : UclampValue) → clamp_new v ≡ some u → (u.into_u16 ≡ v) × (v ≤ 10000)
unfolding clamp_new
clamp_new-within v u e = elim (Bool-cases (leb v 10000)) [
  | inl h ↦ ground (arith, e, h)
  | inr h ↦ ground (arith, e, h)
]

-- A clamp that `new` accepts is written with a whole part of at most 100 and two digits behind the
-- point, where numbers below 100 have at most two characters; and no bits of the two parts are lost,
-- so that they give the value back.
pub clamp_text-parts :
    (format : ℕ → Bytes)
    → ((n : ℕ) → n < 100 → length (format n) ≤ 2)
    → (v : ℕ) (u : UclampValue) → clamp_new v ≡ some u
    → (whole : ℕ) × (fractional : ℕ) × (clamp_text format u
        ≡ format whole ++ codes "." ++ two_digits format fractional)
      × (length (two_digits format fractional) ≡ 2)
      × (whole ≤ 100)
      × (fractional < 100)
      × (100 * whole + fractional ≡ v)
unfolding clamp_text into_parts
clamp_text-parts format short v u e =
    let (same, most) = clamp_new-within v u e in
    let part = (into_parts u).1 in
    let below : part < 100 = omega (arith, same, most) in
    (
      (into_parts u).0,
      part,
      refl,
      length-two_digits format part (short part below),
      omega (arith, same, most),
      below,
      omega (arith, same, most),
    )
