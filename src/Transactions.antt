-- ===== src/Transactions.antt =====
-- src/domain/entities/Transaction.ts: a movement of money and the rules on its shape. Instants and
-- ids are only compared, so they are numbers; an id is never an empty text, so a test for one is a
-- test for its presence. Amounts are hundredths.
pub mod Validity
pub mod Journal
pub mod Rows
pub mod Balances
pub mod Service
mod Tests
mod EditTests
use Prim.Native.String.{String}
use lag_money_manager.Prelude.{
  ℕ, ◌+◌, ◌*◌, Bool, true, false, not, ◌&&◌, ◌||◌, Option, none, some, List, ltb, is_some, is_none,
  same_id,
}
use lag_money_manager.Prelude.Int.{ℤ, pos, pos_part, neg_part, ltb_ℤ, leb_ℤ}
use lag_money_manager.Errors.{
  Result, ok, ◌>>=◌, ◌>>◌, throw_if, Error, domain, no_code, future_date,
  transaction_not_splittable, amount_precision,
}
use lag_money_manager.Money.{max_amount, has_valid_precision, currency_decimals}
use lag_money_manager.Accounts.{TransactionType, income, expense, transfer, adjustment, settlement}

-- `TRANSACTION_SOURCES`
pub data TransactionSource : Type 0 where
  manual quick imported : TransactionSource

pub record Transaction : Type 0 where
  pub id : ℕ
  pub type : TransactionType
  pub amount : ℤ
  pub date : ℕ
  pub day_key : Option ℕ
  pub category_id : Option ℕ
  pub description : Option String
  pub from_account_id : Option ℕ
  pub to_account_id : Option ℕ
  pub user_id : ℕ
  pub tags : List String
  pub note : Option String
  pub pending_details : Bool
  pub source : TransactionSource
  pub currency : Option String
  pub counts_as_yours : ℤ
  pub shared_expense_id : Option ℕ
  pub shared_group_id : Option ℕ
  pub shared_settlement_id : Option ℕ
  pub imported_from_group_id : Option ℕ
  pub imported_from_expense_id : Option ℕ
  pub updated_at : Option ℕ

-- A `DomainValidationError` with no code of its own.
abbrev pub refused : Error
refused = domain no_code

-- `this.type === "EXPENSE"`
abbrev pub is_expense : TransactionType → Bool
is_expense expense = true
is_expense _ = false

abbrev pub day_ms : ℕ
day_ms = 24 * 60 * 60 * 1000

-- `assertValidPrecision`
unfoldable pub assert_valid_precision : Transaction → Result (Unit {0})
assert_valid_precision t =
    throw_if (not (has_valid_precision t.amount (currency_decimals t.currency)))
      (domain amount_precision)

-- The first checks of `assertValid`, on the figures and the date. `now` is `Date.now()`.
unfoldable pub assert_figures : ℕ → Transaction → Result (Unit {0})
assert_figures now t = do
  throw_if (not (ltb_ℤ (pos 0) t.amount)) refused
  throw_if (ltb (now + day_ms) t.date) (domain future_date)
  throw_if (ltb_ℤ (pos max_amount) t.amount) refused
  throw_if (ltb_ℤ t.counts_as_yours (pos 0) || ltb_ℤ t.amount t.counts_as_yours) refused

-- `a !== b` on two tests.
abbrev pub unlike : Bool → Bool → Bool
unlike true b = not b
unlike false b = b

-- The checks of `assertValid` on the links to a group.
unfoldable pub assert_links : Transaction → Result (Unit {0})
assert_links t = do
  throw_if (unlike (is_none t.shared_expense_id) (is_none t.shared_group_id)) refused
  throw_if (is_some t.shared_expense_id && not (is_expense t.type))
      (domain transaction_not_splittable)
  throw_if (unlike (is_none t.imported_from_expense_id) (is_none t.imported_from_group_id)) refused
  throw_if (is_some t.imported_from_expense_id && not (is_expense t.type)) refused
  throw_if (is_some t.imported_from_expense_id && is_some t.shared_expense_id)
      (domain transaction_not_splittable)
  throw_if (is_some t.shared_expense_id && is_some t.shared_settlement_id) refused

-- `sides.length !== 1`, where `sides` are the accounts that are named.
abbrev pub not_one_side : Transaction → Bool
not_one_side t = not (unlike (is_some t.from_account_id) (is_some t.to_account_id))

-- The checks of `assertValid` that depend on the type.
unfoldable pub assert_sides : TransactionType → Transaction → Result (Unit {0})
assert_sides settlement t = do
  throw_if (not_one_side t) refused
  throw_if (is_some t.category_id) refused
  throw_if (is_none t.shared_settlement_id) refused
assert_sides expense t = do
  throw_if (is_none t.from_account_id) refused
  throw_if (is_some t.to_account_id) refused
assert_sides income t = do
  throw_if (is_none t.to_account_id) refused
  throw_if (is_some t.from_account_id) refused
assert_sides adjustment t = do
  throw_if (not_one_side t) refused
  throw_if (is_some t.category_id) refused
assert_sides transfer t = do
  throw_if (is_none t.from_account_id) refused
  throw_if (is_none t.to_account_id) refused
  throw_if (same_id t.from_account_id t.to_account_id) refused

-- `assertValid`
unfoldable pub assert_valid : ℕ → Transaction → Result (Unit {0})
assert_valid now t = do assert_figures now t; assert_links t; assert_sides t.type t
