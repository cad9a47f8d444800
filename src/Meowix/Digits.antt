-- ===== src/Meowix/Digits.antt =====
-- The sizes of buffers for numbers in decimal: `compute_decimal_digits_u128` and the bounds of
-- crates/meowix/src/util.rs. A type is its size in bytes.
use native.Mathlib.Nat.{
  div-le_self, pow-succ', mul_assoc, pow-le-pow_right, one-le-pow, le-div_iff_mul-le,
  mul-lt-mul_of_pos_right,
}
use layer_cake.Prelude.{
  ap, ◌∙◌, leb→le, lt→ltb, ◌⊎◌, ℕ, zero, suc, ◌+◌, ◌-◌, ◌*◌, ◌/◌, ◌^◌, ◌≤◌, ◌<◌, ◌≡◌, refl, true,
  false, ltb, leb, Bool-cases, inl, inr, if◌then◌else◌, arith,
}

-- `saturating_add`, `saturating_mul` and `saturating_sub` of usize
abbrev pub saturate : ℕ → ℕ
saturate n = if ltb n (2 ^ 64) then n else 2 ^ 64 - 1

-- The loop of `compute_decimal_digits_u128`.
unfoldable pub count_digits : ℕ → ℕ → ℕ → ℕ
count_digits zero n digits = digits
count_digits (suc fuel) n digits = elim (leb 10 n) [
  | true ↦ count_digits fuel (n / 10) (saturate (digits + 1))
  | false ↦ digits
]

-- `compute_decimal_digits_u128`: a value of 128 bits has at most 39 digits.
unfoldable pub compute_decimal_digits_u128 : ℕ → ℕ
unfolding count_digits
compute_decimal_digits_u128 n = count_digits 39 n 1

-- `unsigned_decimal_digits_upper_bound`
unfoldable pub unsigned_decimal_digits_upper_bound : ℕ → ℕ
unfolding compute_decimal_digits_u128
unsigned_decimal_digits_upper_bound size =
    compute_decimal_digits_u128 ((2 ^ 128 - 1) / 2 ^ (128 - saturate (size * 8)))

-- `signed_decimal_digits_upper_bound`
unfoldable pub signed_decimal_digits_upper_bound : ℕ → ℕ
unfolding compute_decimal_digits_u128
signed_decimal_digits_upper_bound size =
    saturate (compute_decimal_digits_u128 (2 ^ (saturate (size * 8) - 1)) + 1)

-- `d` is the number of decimal digits of `n`.
abbrev pub IsDigits : ℕ → ℕ → Type 0
IsDigits n d = (n < 10 ^ d) × ((d ≡ 1) ⊎ (10 ^ (d - 1) ≤ n)) × (1 ≤ d)

count_lem :
    (fuel n digits : ℕ)
    → n < 10 ^ fuel
    → 1 ≤ digits
    → digits + fuel < 2 ^ 64
    → (k : ℕ) × (count_digits fuel n digits ≡ digits + k)
      × (k ≤ fuel)
      × (n < 10 ^ suc k)
      × ((k ≡ 0) ⊎ (10 ^ k ≤ n))
unfolding count_digits
count_lem zero n digits h p b = (0, omega arith, omega arith, omega arith, inl refl)
count_lem (suc fuel) n digits h p b = elim (Bool-cases (leb 10 n)) [
  | inr e ↦ rw (e, count_digits) (0, omega arith, omega arith, ground (arith, e), inl refl)
  | inl e ↦
      rw (e, count_digits, saturate_lem (digits + 1) (omega arith))
        (let (k, same, low, above, below) =
            count_lem fuel (n / 10) (digits + 1) (omega (arith, h)) (omega arith) (omega arith) in
          (
            suc k,
            omega (arith, same),
            omega (arith, low),
            omega (arith, above),
            inr (ground (arith, below, leb→le 10 n e)),
          ))
]
  where
    saturate_lem : (m : ℕ) → m < 2 ^ 64 → saturate m ≡ m
    saturate_lem m h = rw (lt→ltb m (2 ^ 64) h) refl

-- For a value of 128 bits `compute_decimal_digits_u128` is the number of its decimal digits: the
-- least number of digits, and one at least, that a numeral of the value has.
pub compute_decimal_digits_u128-IsDigits :
    (n : ℕ) → n < 2 ^ 128 → IsDigits n (compute_decimal_digits_u128 n)
unfolding compute_decimal_digits_u128
compute_decimal_digits_u128-IsDigits n h =
    let (k, same, low, above, below) = count_lem 39 n 1 (omega (arith, h)) refl_le (omega arith) in
    rw (same ∙ one_more k) (above, split k below, omega arith)
  where
    refl_le : 1 ≤ 1
    refl_le = omega arith

    one_more : (k : ℕ) → 1 + k ≡ suc k
    one_more k = omega arith

    split : (k : ℕ) → (k ≡ 0) ⊎ (10 ^ k ≤ n) → (suc k ≡ 1) ⊎ (10 ^ (suc k - 1) ≤ n)
    split k (inl e) = inl (omega arith)
    split k (inr e) = let same : suc k - 1 ≡ k = omega arith in inr (rw same e)

-- Numerals of smaller values are no longer.
digits_mono : (m n d e : ℕ) → IsDigits m d → IsDigits n e → m ≤ n → d ≤ e
digits_mono m n d e (above, inl one_digit, some_digit) (above', below', some_digit') h = omega arith
digits_mono m n d e (above, inr below, some_digit) (above', below', some_digit') h =
    elim (Bool-cases (leb d e)) [
      | inl q ↦ leb→le d e q
      | inr q ↦ absurd (
          let longer : e ≤ d - 1 = ground (arith, q) in
          let power = pow-le-pow_right {n = 10} (omega arith) longer in
          omega (arith, power, below, above', h))
    ]

saturate_bits : (size : ℕ) → size ≤ 16 → saturate (size * 8) ≡ size * 8
saturate_bits size h = rw (lt→ltb (size * 8) (2 ^ 64) (omega (arith, h))) refl

two_pow_add : (a b : ℕ) → 2 ^ a * 2 ^ b ≡ 2 ^ (a + b)
two_pow_add zero b = let e : zero + b ≡ b = omega arith in rw e (omega arith)
two_pow_add (suc a) b =
    let e : suc a + b ≡ suc (a + b) = omega arith in
    let twice = pow-succ' 2 a in
    rw (e, twice) (omega (arith, two_pow_add a b, mul_assoc 2 (2 ^ a) (2 ^ b)))

-- A value of the type is no greater than the greatest, which the code shifts to.
value_le :
    (size v : ℕ)
    → size ≤ 16
    → v < 2 ^ (size * 8)
    → v ≤ (2 ^ 128 - 1) / 2 ^ (128 - saturate (size * 8))
value_le size v h l = rw (saturate_bits size h) (
    let m = 2 ^ (128 - size * 8) in
    let m_pos : 0 < m = one-le-pow (128 - size * 8) 2 (omega arith) in
    let product = mul-lt-mul_of_pos_right {k = m} l m_pos in
    let all_bits : size * 8 + (128 - size * 8) ≡ 128 = omega (arith, h) in
    let whole : 2 ^ (size * 8) * m ≡ 2 ^ 128 =
      two_pow_add (size * 8) (128 - size * 8) ∙ ap (λ k. 2 ^ k) all_bits in
    (le-div_iff_mul-le m_pos).1 (omega (arith, product, whole)))

quotient_lt : (m : ℕ) → 0 < m → (2 ^ 128 - 1) / m < 2 ^ 128
quotient_lt m h = omega (arith, div-le_self (2 ^ 128 - 1) m)

-- Every value of an unsigned type of at most 16 bytes has a numeral of at most as many digits as
-- `unsigned_decimal_digits_upper_bound` tells.
pub unsigned_decimal_digits_upper_bound_sound :
    (size v : ℕ)
    → size ≤ 16
    → v < 2 ^ (size * 8)
    → compute_decimal_digits_u128 v ≤ unsigned_decimal_digits_upper_bound size
unfolding unsigned_decimal_digits_upper_bound
unsigned_decimal_digits_upper_bound_sound size v h l =
    let greatest = (2 ^ 128 - 1) / 2 ^ (128 - saturate (size * 8)) in
    let bound = quotient_lt (2 ^ (128 - saturate (size * 8))) (one-le-pow _ 2 (omega arith)) in
    let below = value_le size v h l in
    digits_mono v greatest _ _
      (compute_decimal_digits_u128-IsDigits v (omega (arith, below, bound)))
      (compute_decimal_digits_u128-IsDigits greatest bound) below
