-- ===== src/Money/Doubles.antt =====
-- Numbers of src/shared/money.ts as doubles: 53 bits, rounded to the nearest and a half to the even one.
-- A double is a mantissa over a power of two; it is not negative here, and below 2 ^ 53.
use lag_money_manager.Prelude.{
  ℕ, zero, suc, ◌+◌, ◌-◌, ◌*◌, ◌/◌, ◌%◌, ◌^◌, Bool, true, false, ltb, if◌then◌else◌,
}

pub record Double : Type 0 where
  pub mantissa : ℕ
  pub exponent : ℕ

-- The whole number nearest to a fraction.
abbrev pub nearest : ℕ → ℕ → ℕ
nearest num den =
    let whole = num / den in
    let twice = 2 * (num % den) in
    if ltb twice den then whole else (if ltb den twice then suc whole else whole + whole % 2)

-- How often a fraction is doubled until it has 53 bits; 64 times are enough for a hundredth.
abbrev pub doublings : ℕ → ℕ → ℕ → ℕ
doublings zero num den = 0
doublings (suc fuel) num den = elim (ltb num (den * 2 ^ 52)) [
  | true ↦ suc (doublings fuel (2 * num) den)
  | false ↦ 0
]

-- The double nearest to a fraction.
abbrev pub to_double : ℕ → ℕ → Double
to_double num den =
    let exponent = doublings 64 num den in
    record { mantissa = nearest (num * 2 ^ exponent) den; exponent = exponent }

-- A product of doubles, the second of which is a whole number.
abbrev pub times : Double → ℕ → Double
times x factor = to_double (x.mantissa * factor) (2 ^ x.exponent)

-- `Math.abs(x - Math.round(x)) < 1e-9`. The difference is exact.
abbrev pub is_near_whole : Double → Bool
is_near_whole x =
    let one = 2 ^ x.exponent in
    let rounded = ((2 * x.mantissa + one) / (2 * one)) * one in
    ltb (((x.mantissa - rounded) + (rounded - x.mantissa)) * 10 ^ 9) one
