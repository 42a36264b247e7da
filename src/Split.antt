-- ===== src/Split.antt =====
-- src/shared/splitShares.ts: the one place an expense is divided. The checks throw SPLIT_INVALID;
-- the figures of a row and the total are hundredths, and a share is a whole number of minor units
-- until the last line divides by the scale.
pub mod PartOf
pub mod Sums
pub mod Modes
pub mod Laws
pub mod Scaled
mod Tests
use Prim.Native.String.{String}
use lag_money_manager.Prelude.{
  ℕ, zero, suc, ◌+◌, ◌*◌, ◌/◌, ◌%◌, ◌^◌, Bool, true, false, not, ◌||◌, Option, none, some, List, [],
  ◌∷◌, map, ltb, leb, if◌then◌else◌, is_some, is_none, length, any, every, sum,
}
use lag_money_manager.Prelude.Int.{ℤ, pos, pos_part, neg_part, ◌+ℤ◌, ◌-ℤ◌, ltb_ℤ, leb_ℤ, sum_ℤ}
use lag_money_manager.Errors.{Result, ok, err, ◌>>=◌, ◌>>◌, throw_if, Error, domain, split_invalid}
use lag_money_manager.Money.{currency_decimals, to_minor, of_minor}

-- `SPLIT_MODES`
pub data SplitMode : Type 0 where
  equal percent exact fixed_rest : SplitMode

pub record SplitRow : Type 0 where
  pub units : ℕ
  pub input : Option ℤ

pub record SplitInput : Type 0 where
  pub total : ℤ
  pub currency : Option String
  pub mode : SplitMode
  pub rows : List SplitRow
  pub payer_index : ℕ

-- `invalid`
abbrev pub invalid : Error
invalid = domain split_invalid

abbrev pub percent_scale : ℕ
percent_scale = 100

unfoldable pub part_of : ℕ → ℕ → ℕ → ℕ
part_of total part whole = (total / whole) * part + ((total % whole) * part) / whole

-- The checks of `assertShape` that a mode makes.
unfoldable pub assert_inputs : SplitMode → List SplitRow → Result (Unit {0})
assert_inputs equal rows = throw_if (any (λ row. is_some row.input) rows) invalid
assert_inputs fixed_rest rows = throw_if (every (λ row. is_some row.input) rows) invalid
assert_inputs percent rows = throw_if (any (λ row. is_none row.input) rows) invalid
assert_inputs exact rows = throw_if (any (λ row. is_none row.input) rows) invalid

unfoldable pub assert_shape : SplitInput → ℕ → Result (Unit {0})
assert_shape i scale = do
  throw_if (leb (length i.rows) 0) invalid
  throw_if (leb (length i.rows) i.payer_index) invalid
  throw_if (any (λ row. ltb row.units 1) i.rows) invalid
  throw_if (leb_ℤ (to_minor i.total scale) (pos 0)) invalid
  assert_inputs i.mode i.rows

abbrev pub total_units : List SplitRow → ℕ
total_units rows = sum (map (λ row. row.units) rows)

unfoldable pub equal_shares : ℕ → List SplitRow → List ℤ
equal_shares total rows = map (λ row. pos (part_of total row.units (total_units rows))) rows

-- `row.input as number`, which the shape has checked.
abbrev pub figure : SplitRow → ℤ
figure row = elim (row.input) [ none ↦ pos 0 | some a ↦ a ]

abbrev pub basis_points : List SplitRow → List ℤ
basis_points rows = map (λ row. to_minor (figure row) percent_scale) rows

-- Two integers differ.
abbrev pub differs : ℤ → ℤ → Bool
differs a b = ltb_ℤ a b || ltb_ℤ b a

unfoldable pub percent_shares : ℕ → List SplitRow → Result (List ℤ)
percent_shares total rows = do
  let points = basis_points rows
  let whole = percent_scale * percent_scale
  throw_if (differs (sum_ℤ points) (pos whole)) invalid
  throw_if (any (λ bp. ltb_ℤ bp (pos 0)) points) invalid
  ok (map (λ bp. pos (part_of total (pos_part bp) whole)) points)

unfoldable pub exact_shares : ℕ → List SplitRow → ℕ → Result (List ℤ)
exact_shares total rows scale = do
  let shares = map (λ row. to_minor (figure row) scale) rows
  throw_if (any (λ share. ltb_ℤ share (pos 0)) shares) invalid
  throw_if (differs (sum_ℤ shares) (pos total)) invalid
  ok shares

-- `pinned[index]`
abbrev pub pinned_at : ℕ → SplitRow → Option ℤ
pinned_at scale row = elim (row.input) [ none ↦ none | some a ↦ some (to_minor a scale) ]

abbrev pub pinned_or_zero : ℕ → SplitRow → ℤ
pinned_or_zero scale row = elim (pinned_at scale row) [ none ↦ pos 0 | some a ↦ a ]

abbrev pub rest_units : List SplitRow → ℕ
rest_units [] = 0
rest_units (row ∷ rows) = (if is_none row.input then row.units else 0) + rest_units rows

-- What one row takes: its pinned figure, or its part of the rest.
abbrev pub rest_share : ℕ → ℕ → ℕ → SplitRow → ℤ
rest_share scale rest units row = elim (pinned_at scale row) [
  | none ↦ pos (part_of rest row.units units)
  | some a ↦ a
]

unfoldable pub fixed_rest_shares : ℕ → List SplitRow → ℕ → Result (List ℤ)
fixed_rest_shares total rows scale = do
  let pinned_total = sum_ℤ (map (pinned_or_zero scale) rows)
  throw_if (any (λ row. ltb_ℤ (pinned_or_zero scale row) (pos 0)) rows) invalid
  throw_if (ltb_ℤ (pos total) pinned_total) invalid
  ok (map (rest_share scale (pos_part (pos total -ℤ pinned_total)) (rest_units rows)) rows)

unfoldable pub mode_shares : SplitMode → ℕ → List SplitRow → ℕ → Result (List ℤ)
mode_shares equal total rows scale = ok (equal_shares total rows)
mode_shares percent total rows scale = percent_shares total rows
mode_shares exact total rows scale = exact_shares total rows scale
mode_shares fixed_rest total rows scale = fixed_rest_shares total rows scale

-- `shares[i] += d`
abbrev pub add_at : List ℤ → ℕ → ℤ → List ℤ
add_at [] i d = []
add_at (x ∷ xs) zero d = (x +ℤ d) ∷ xs
add_at (x ∷ xs) (suc i) d = x ∷ add_at xs i d

-- The last lines of `resolveShares`: the payer's row absorbs what the others leave.
abbrev pub settle_payer : ℕ → ℕ → List ℤ → List ℤ
settle_payer total payer shares = add_at shares payer (pos total -ℤ sum_ℤ shares)

-- `resolveShares` before the division by the scale.
unfoldable pub resolve_minor : SplitInput → ℕ → Result (List ℤ)
resolve_minor i scale = do
  assert_shape i scale
  let total = pos_part (to_minor i.total scale)
  shares ← mode_shares i.mode total i.rows scale
  ok (settle_payer total i.payer_index shares)

abbrev pub scale_of : Option String → ℕ
scale_of currency = 10 ^ currency_decimals currency

unfoldable pub resolve_shares : SplitInput → Result (List ℤ)
resolve_shares i = do
  shares ← resolve_minor i (scale_of i.currency)
  ok (map (of_minor (scale_of i.currency)) shares)
