-- ===== src/Transactions/Service.antt =====
-- src/app/services/TransactionService.ts and src/app/dtos/TransactionDTO.ts: what a request does to
-- the accounts and the movements. Each call runs in one database transaction, which an error aborts.
-- The group's side of a movement, of src/app/services/SharedLedgerService.ts, is an interface.
pub mod Create
pub mod Edit
pub mod Booked
pub mod Inserted
pub mod Removed
pub mod Edited
use Prim.Native.String.{String}
use lag_money_manager.Prelude.{
  ℕ, Bool, true, false, not, ◌&&◌, ◌||◌, Option, none, some, is_some, is_none, List, [], ◌∷◌, ◌==◌,
  or_default, if◌then◌else◌, same_id, map,
}
use lag_money_manager.Prelude.Int.{ℤ, pos, ◌-ℤ◌, leb_ℤ, eq_ℤ}
use lag_money_manager.Errors.{
  Result, ok, err, ◌>>=◌, ◌>>◌, throw_if, Error, api, duplicate_key, no_code, not_found,
  bad_request, conflict, unprocessable_entity, settlement_movement_locked, category_archived,
  category_type_mismatch, no_default_account, idempotency_payload_mismatch,
  idempotency_original_deleted,
}
use lag_money_manager.Concurrency.{assert_fresh}
use lag_money_manager.Accounts.{
  Account, Accounts, TransactionType, income, expense, transfer, same_type,
}
use lag_money_manager.Accounts.Repository.{default_of}
use lag_money_manager.Transactions.{Transaction, TransactionSource, manual, quick, assert_valid}
use lag_money_manager.Transactions.Journal.{Journal}
use lag_money_manager.Transactions.Balances.{BalanceMove, Books, forward, back, move_balances}
use lag_money_manager.Transactions.Rows.{Row, Revision, create, update, delete, get_by_id}

-- The fields of `Category` that a movement is checked against.
pub record Category : Type 0 where
  pub type : Option TransactionType
  pub user_id : ℕ
  pub archived_at : Option ℕ

-- `IdempotencyRecord`, under the owner and the key.
pub record IdempotencyRecord : Type 0 where
  pub transaction_id : ℕ
  pub request_hash : ℕ

-- What the service reads and writes. `journal` is that of the running database transaction.
pub record Store (Shared : Type 0) : Type 0 where
  pub accounts : Accounts
  pub journal : Journal
  pub rows : List Row
  pub keys : ℕ → ℕ → Option IdempotencyRecord
  pub categories : ℕ → Option Category
  pub shared : Shared

-- The group's side of a movement: `restateExpense` and `dropExpenseOf`.
pub record SharedLedger (Shared : Type 0) : Type 0 where
  pub restate_expense :
      Transaction → Transaction → ℕ → Store Shared → Result (Transaction × Store Shared)
  pub drop_expense_of : Transaction → ℕ → Store Shared → Result (Store Shared)

-- `CreateTransactionDTO`
pub record CreateTransactionDto : Type 0 where
  pub id : Option ℕ
  pub type : TransactionType
  pub amount : ℤ
  pub date : ℕ
  pub category_id : Option ℕ
  pub description : Option String
  pub from_account_id : Option ℕ
  pub to_account_id : Option ℕ
  pub user_id : ℕ
  pub tags : List String
  pub note : Option String
  pub pending_details : Bool
  pub source : Option TransactionSource
  pub shared_settlement_id : Option ℕ
  pub currency : Option String
  pub imported_from_group_id : Option ℕ
  pub imported_from_expense_id : Option ℕ

-- `UpdateTransactionDTO`: a field that is left out, or the value it gets.
pub record UpdateTransactionDto : Type 0 where
  pub id : Option ℕ
  pub type : Option TransactionType
  pub amount : Option ℤ
  pub date : Option ℕ
  pub category_id : Option (Option ℕ)
  pub description : Option (Option String)
  pub from_account_id : Option (Option ℕ)
  pub to_account_id : Option (Option ℕ)
  pub tags : Option (List String)
  pub note : Option (Option String)
  pub pending_details : Option Bool

-- `IdempotencyMeta`
pub record IdempotencyMeta : Type 0 where
  pub key : ℕ
  pub request_hash : ℕ

-- The constructor of `Transaction`, of a request. `fresh` is the id that is made when none is sent.
abbrev pub new_transaction : ℕ → ℕ → ℕ → CreateTransactionDto → Transaction
new_transaction now fresh day_key dto = record {
  id = or_default dto.id fresh;
  type = dto.type;
  amount = dto.amount;
  date = dto.date;
  day_key = some day_key;
  category_id = dto.category_id;
  description = dto.description;
  from_account_id = dto.from_account_id;
  to_account_id = dto.to_account_id;
  user_id = dto.user_id;
  tags = dto.tags;
  note = dto.note;
  pending_details = dto.pending_details;
  source = or_default dto.source manual;
  currency = dto.currency;
  counts_as_yours = dto.amount;
  shared_expense_id = none;
  shared_group_id = none;
  shared_settlement_id = dto.shared_settlement_id;
  imported_from_group_id = dto.imported_from_group_id;
  imported_from_expense_id = dto.imported_from_expense_id;
  updated_at = some now;
}

-- The checks of `assertCategoryUsable` on the category that was found.
abbrev pub assert_usable : Transaction → ℕ → Option ℕ → Option Category → Result (Unit {0})
assert_usable t id previous none = err (api not_found no_code)
assert_usable t id previous (some category) = do
  throw_if (not (category.user_id == t.user_id)) (api not_found no_code)
  throw_if (is_some category.archived_at && not (same_id (some id) previous))
      (api bad_request category_archived)
  throw_if (is_some category.type && not (same_type category.type t.type))
      (api bad_request category_type_mismatch)

module _ {Shared : Type 0} where
  abbrev pub category_check : Option ℕ → Transaction → Option ℕ → Store Shared → Result (Unit {0})
  category_check none t previous store = ok tt
  category_check (some id) t previous store = assert_usable t id previous (store.categories id)

  -- `assertCategoryUsable`
  unfoldable pub assert_category_usable : Transaction → Option ℕ → Store Shared → Result (Unit {0})
  assert_category_usable t previous store = category_check t.category_id t previous store

  -- `moveBalances` in the store.
  unfoldable pub move_in :
      ℕ → List BalanceMove → Store Shared → Result (List Transaction × Store Shared)
  move_in now moves store = do
    (stamped, books) ←
        move_balances now moves (record { accounts = store.accounts; journal = store.journal })
    ok (stamped, record store { accounts = books.accounts; journal = books.journal })

  -- A list of movements that are stored one after the other.
  unfoldable pub create_all :
      List Transaction → Store Shared → Result (List Transaction × Store Shared)
  create_all [] store = ok ([], store)
  create_all (t ∷ ts) store = do
    rows ← create t store.rows
    (rest, after) ← create_all ts (record store { rows = rows })
    ok (t ∷ rest, after)

  -- `recordWithin` on movements that are built, and `applyAndCreate` on one.
  unfoldable pub apply_and_create :
      ℕ → List Transaction → Store Shared → Result (List Transaction × Store Shared)
  apply_and_create now ts store = do
    (stamped, moved) ←
        move_in now (map (λ t. record { transaction = t; direction = forward }) ts) store
    create_all stamped moved

  -- The loop of `recordWithin` that checks the movements before any is applied.
  unfoldable pub assert_all : ℕ → List Transaction → Store Shared → Result (Unit {0})
  assert_all now [] store = ok tt
  assert_all now (t ∷ ts) store = do
    assert_valid now t
    assert_category_usable t none store
    assert_all now ts store

  -- `recordWithin`
  unfoldable pub record_within :
      ℕ → List Transaction → Store Shared → Result (List Transaction × Store Shared)
  record_within now ts store = do assert_all now ts store; apply_and_create now ts store

  -- The loop of `reverseWithin` that deletes the movements.
  unfoldable pub delete_all : ℕ → List Transaction → Store Shared → Result (Store Shared)
  delete_all now [] store = ok store
  delete_all now (t ∷ ts) store = do
    rows ← delete now t.id none store.rows
    delete_all now ts (record store { rows = rows })

  -- `reverseWithin`
  unfoldable pub reverse_within : ℕ → List Transaction → Store Shared → Result (Store Shared)
  reverse_within now ts store = do
    (same, moved) ← move_in now (map (λ t. record { transaction = t; direction = back }) ts) store
    delete_all now ts moved
