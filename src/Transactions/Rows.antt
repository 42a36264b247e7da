-- ===== src/Transactions/Rows.antt =====
-- src/infrastructure/repositories/transaction/TransactionRepository.ts (`getById`, `getOwnById`,
-- `isDeleted`, `create`, `update`, `delete`): the stored movements. A deleted one stays as a
-- tombstone.
use lag_money_manager.Prelude.{
  ℕ, suc, Bool, true, false, not, ◌&&◌, Option, none, some, is_none, List, [], ◌∷◌, ◌++◌, any, ◌==◌,
  if◌then◌else◌, length, ltb,
}
use lag_money_manager.Prelude.Int.{ℤ}
use lag_money_manager.Errors.{Result, ok, err, api, not_found, no_code, duplicate_key, row_id}
use lag_money_manager.Accounts.{TransactionType}
use lag_money_manager.Transactions.{Transaction}

-- `TransactionRevision`
pub record Revision : Type 0 where
  pub at : ℕ
  pub amount : ℤ
  pub type : TransactionType
  pub from_account_id : Option ℕ
  pub to_account_id : Option ℕ
  pub date : ℕ

pub record Row : Type 0 where
  pub transaction : Transaction
  pub deleted_at : Option ℕ
  pub revisions : List Revision

abbrev pub is_live : Row → Bool
is_live row = is_none row.deleted_at

-- `{ _id: id, deletedAt: null }`
abbrev pub is_live_id : ℕ → Row → Bool
is_live_id id row = (row.transaction.id == id) && is_live row

-- `findOne`: the first row that passes.
unfoldable pub find : (Row → Bool) → List Row → Option Row
find p [] = none
find p (row ∷ rows) = let rest = find p rows in if p row then some row else rest

abbrev pub transaction_of : Option Row → Option Transaction
transaction_of none = none
transaction_of (some row) = some row.transaction

-- `getById`
abbrev pub get_by_id : ℕ → List Row → Option Transaction
get_by_id id rows = transaction_of (find (is_live_id id) rows)

-- `getOwnById`: a deleted one too.
abbrev pub get_own_by_id : ℕ → ℕ → List Row → Option Transaction
get_own_by_id id user_id rows =
    transaction_of
      (find (λ row. (row.transaction.id == id) && (row.transaction.user_id == user_id)) rows)

-- `isDeleted`
abbrev pub is_deleted : ℕ → ℕ → List Row → Bool
is_deleted id user_id rows =
    any
      (λ row.
        (row.transaction.id == id) && (row.transaction.user_id == user_id) && not (is_live row))
      rows

-- `create`: the index on `_id` refuses an id that any row has.
unfoldable pub create : Transaction → List Row → Result (List Row)
create t rows =
    if any (λ (row : Row). row.transaction.id == t.id) rows
    then err (duplicate_key row_id)
    else ok (record { transaction = t; deleted_at = none; revisions = [] } ∷ rows)

-- `...(expectedUpdatedAt && { updatedAt: expectedUpdatedAt })`
abbrev pub at_version : Option ℕ → Option ℕ → Bool
at_version none stamp = true
at_version (some version) none = false
at_version (some version) (some stamp) = stamp == version

-- The filter of a guarded write.
abbrev pub guarded : ℕ → Option ℕ → Row → Bool
guarded id version row = is_live_id id row && at_version version row.transaction.updated_at

-- `findOneAndUpdate`: the first row that passes is written.
unfoldable pub write : (Row → Bool) → (Row → Row) → List Row → List Row
write p change [] = []
write p change (row ∷ rows) =
    let rest = write p change rows in if p row then change row ∷ rows else row ∷ rest

-- `$slice: -20`: the last of them.
unfoldable pub last : ℕ → List Revision → List Revision
last n [] = []
last n (r ∷ rs) = let rest = last n rs in if ltb n (suc (length rs)) then rest else r ∷ rs

abbrev pub pushed : Option Revision → List Revision → List Revision
pushed none revisions = revisions
pushed (some revision) revisions = last 20 (revisions ++ (revision ∷ []))

-- The row that `update` leaves.
abbrev pub updated_row : ℕ → (Transaction → Transaction) → Option Revision → Row → Row
updated_row now patch revision row = record row {
  transaction = record (patch row.transaction) { updated_at = some now };
  revisions = pushed revision row.revisions;
}

abbrev pub written_or_not_found :
    Option Row → (Row → Row) → List Row → Result (Transaction × List Row)
written_or_not_found none change after = err (api not_found no_code)
written_or_not_found (some row) change after = ok ((change row).transaction, after)

-- `update`
unfoldable pub update :
    ℕ
    → ℕ
    → (Transaction → Transaction)
    → Option Revision
    → Option ℕ
    → List Row
    → Result (Transaction × List Row)
update now id patch revision version rows =
    written_or_not_found (find (guarded id version) rows) (updated_row now patch revision)
      (write (guarded id version) (updated_row now patch revision) rows)

-- The row that `delete` leaves.
abbrev pub deleted_row : ℕ → Row → Row
deleted_row now row = record row {
  deleted_at = some now;
  transaction = record row.transaction { updated_at = some now };
}

abbrev pub deleted_or_not_found : Option Row → List Row → Result (List Row)
deleted_or_not_found none after = err (api not_found no_code)
deleted_or_not_found (some row) after = ok after

-- `delete`
unfoldable pub delete : ℕ → ℕ → Option ℕ → List Row → Result (List Row)
delete now id version rows =
    deleted_or_not_found (find (guarded id version) rows)
      (write (guarded id version) (deleted_row now) rows)
