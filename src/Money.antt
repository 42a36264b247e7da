-- ===== src/Money.antt =====
-- src/shared/currency.ts and src/shared/money.ts. An amount is a whole number of hundredths, which
-- stands for the double nearest to it: the request schemas refuse a third decimal, and `Math.round` of a
-- hundred times the double gives the hundredths back for every amount up to MAX_AMOUNT.
mod Rounding
mod Doubles
mod Tests
unfoldable pub use Rounding.{to_minor, of_minor}
pub use Rounding.{to_minor_hundred, of_minor-to_minor_one}
use lag_money_manager.Money.Doubles.{to_double, times, is_near_whole}
use text.Mathlib.Text.{◌==◌ as str_eq}
use Prim.Native.String.{String}
use lag_money_manager.Prelude.{
  ℕ, ◌+◌, ◌*◌, ◌/◌, ◌%◌, ◌^◌, ◌≡◌, refl, ◌⊎◌, inl, inr, Bool, not, ◌&&◌, Option, none, some, List,
  [], ◌∷◌, arith, ◌==◌, if◌then◌else◌, any, Bool-cases,
}
use lag_money_manager.Prelude.Int.{ℤ, pos_part, neg_part}
use lag_money_manager.Errors.{Result, ok, throw_if, Error, domain, amount_precision}

-- `ZERO_DECIMAL_CURRENCIES`
abbrev pub zero_decimal_currencies : List String
zero_decimal_currencies =
    "AFN" ∷ "ALL" ∷ "BIF" ∷ "CLP" ∷ "COP" ∷ "DJF" ∷ "GNF" ∷ "HUF" ∷ "IDR" ∷ "IQD" ∷ "IRR" ∷ "ISK"
    ∷ "JPY" ∷ "KMF" ∷ "KPW" ∷ "KRW" ∷ "LAK" ∷ "LBP" ∷ "MGA" ∷ "MMK" ∷ "PKR" ∷ "PYG" ∷ "RWF" ∷ "SLL"
    ∷ "SOS" ∷ "SYP" ∷ "UGX" ∷ "UYI" ∷ "VND" ∷ "VUV" ∷ "XAF" ∷ "XOF" ∷ "XPF" ∷ "YER" ∷ []

-- `currencyDecimals`
unfoldable pub currency_decimals : Option String → ℕ
currency_decimals none = 2
currency_decimals (some c) = if any (str_eq c) zero_decimal_currencies then 0 else 2

-- `MAX_AMOUNT`, in hundredths
abbrev pub max_amount : ℕ
max_amount = 10 ^ 15

-- `hasValidPrecision`, on the doubles that it computes with; the sign changes nothing.
unfoldable pub has_valid_precision : ℤ → ℕ → Bool
has_valid_precision a decimals =
    is_near_whole (times (to_double (pos_part a + neg_part a) 100) (10 ^ decimals))

-- What that test is for: the amount is a whole number of minor units.
unfoldable pub is_whole_minor : ℤ → ℕ → Bool
is_whole_minor a decimals =
    (pos_part a * 10 ^ decimals) % 100 == 0 && (neg_part a * 10 ^ decimals) % 100 == 0

-- `assertAmountPrecision`
unfoldable pub assert_amount_precision : ℤ → Option String → Result (Unit {0})
assert_amount_precision a currency =
    throw_if (not (has_valid_precision a (currency_decimals currency))) (domain amount_precision)

-- A currency has no minor unit, or hundredths of one.
pub currency_decimals_cases :
    (c : Option String) → (currency_decimals c ≡ 0) ⊎ (currency_decimals c ≡ 2)
unfolding currency_decimals
currency_decimals_cases none = inr refl
currency_decimals_cases (some c) = elim (Bool-cases (any (str_eq c) zero_decimal_currencies)) [
  | inl e ↦ inl (rw e)
  | inr e ↦ inr (rw e)
]
