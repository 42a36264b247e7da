-- ===== src/Accounts.antt =====
-- src/domain/entities/Account.ts, src/shared/transactionRules.ts and the account types and debt
-- fields of src/shared/constants.ts. The collection of accounts is a finite map from ids. Ids, colours
-- and instants are only compared, so they are numbers; amounts are hundredths.
pub mod Repository
pub mod Service
pub mod Requests
pub mod Sound
pub mod Kept
pub mod Patched
pub mod Edited
pub mod Served
pub mod Archive
pub mod Room
mod Tests
use Prim.Native.String.{String}
use lag_money_manager.Prelude.{ℕ, Bool, true, false, ◌||◌, Option, none, some, ◌==◌, if◌then◌else◌}
use lag_money_manager.Prelude.Int.{ℤ}
use lag_money_manager.Errors.{ErrorCode, income_on_card_or_loan}

-- `ACCOUNT_TYPES`
pub data AccountType : Type 0 where
  cash account card debit_card savings investment overdraft loan other : AccountType

-- `TRANSACTION_TYPES`
pub data TransactionType : Type 0 where
  income expense transfer adjustment settlement : TransactionType

-- `a === b`, where `a` may be left out.
abbrev pub same_type : Option TransactionType → TransactionType → Bool
same_type (some income) income = true
same_type (some expense) expense = true
same_type (some transfer) transfer = true
same_type (some adjustment) adjustment = true
same_type (some settlement) settlement = true
same_type _ _ = false

pub record Account : Type 0 where
  pub id : ℕ
  pub name : String
  pub type : AccountType
  pub balance : ℤ
  pub opening_balance : ℤ
  pub color : Option ℕ
  pub credit_limit : Option ℤ
  pub borrowed_amount : Option ℤ
  pub user_id : ℕ
  pub is_default : Bool
  pub currency : Option String
  pub archived_at : Option ℕ
  pub updated_at : Option ℕ

abbrev pub Accounts : Type 0
Accounts = ℕ → Option Account

-- A write of one account.
abbrev pub put : ℕ → Account → Accounts → Accounts
put id a accounts i = if id == i then some a else accounts i

abbrev pub is_loan : AccountType → Bool
is_loan loan = true
is_loan _ = false

-- `INCOME_REFUSED_ON.includes(type)`
abbrev pub income_refused_on : AccountType → Bool
income_refused_on card = true
income_refused_on loan = true
income_refused_on _ = false

-- The two fields of `DEBT_ACCOUNT_FIELDS`, each with the types that have it.
abbrev pub has_credit_limit : AccountType → Bool
has_credit_limit card = true
has_credit_limit overdraft = true
has_credit_limit _ = false

abbrev pub has_borrowed_amount : AccountType → Bool
has_borrowed_amount loan = true
has_borrowed_amount _ = false

-- `isDebtAccountType`
abbrev pub is_debt_account_type : AccountType → Bool
is_debt_account_type t = has_credit_limit t || has_borrowed_amount t

-- `MovementSide`
pub data MovementSide : Type 0 where
  from to : MovementSide

unfoldable pub refuse_movement : TransactionType → AccountType → MovementSide → Option ErrorCode
refuse_movement income t to = if income_refused_on t then some income_on_card_or_loan else none
refuse_movement _ _ _ = none
