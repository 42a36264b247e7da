-- ===== src/Transactions/Service/Edit.antt =====
-- `updateTransaction`, `deleteTransaction` and `batchUpdateDetails` of
-- src/app/services/TransactionService.ts.
use lag_money_manager.Prelude.{
  ◌==◌, if◌then◌else◌, ℕ, Bool, false, not, ◌||◌, Option, none, some, List, [], ◌∷◌, is_some,
  or_default, same_id, ltb,
}
use lag_money_manager.Prelude.Int.{pos, negsuc}
use lag_money_manager.Accounts.{same_type}
use lag_money_manager.Errors.{
  Result, ok, err, ◌>>=◌, ◌>>◌, api, domain, plain, no_code, not_found, bad_request, validation,
  Status, Error, ErrorCode, throw_if, settlement_movement_locked, not_found_code, bad_request_code,
  status_code, duplicate_key,
}
use lag_money_manager.Transactions.Service.Create.{Calendar}
use lag_money_manager.Transactions.Service.{
  Store, SharedLedger, Transaction, UpdateTransactionDto, get_by_id, ℤ, eq_ℤ, pos, move_in,
  assert_fresh, Revision, back, ◌-ℤ◌, update, assert_valid, forward, delete, assert_category_usable,
}

-- `dto.id && dto.id !== id`
abbrev pub is_other : Option ℕ → ℕ → Bool
is_other none id = false
is_other (some sent) id = not (sent == id)

-- `assertOnlyDetailChanges`
unfoldable pub assert_only_detail_changes : UpdateTransactionDto → Result (Unit {0})
assert_only_detail_changes dto =
    throw_if
      (is_some dto.amount
        || is_some dto.date
        || is_some dto.type
        || is_some dto.from_account_id
        || is_some dto.to_account_id)
      (api bad_request settlement_movement_locked)

-- `dto.amount !== undefined && dto.amount !== existing.amount`
abbrev pub is_new_amount : Option ℤ → ℤ → Bool
is_new_amount none amount = false
is_new_amount (some sent) amount = not (eq_ℤ sent amount)

-- `Math.max(0, x)`
abbrev pub at_least_zero : ℤ → ℤ
at_least_zero (pos n) = pos n
at_least_zero (negsuc n) = pos 0

-- The figure of yours after an edit: what came back stays with it.
abbrev pub yours_after : UpdateTransactionDto → Transaction → ℤ
yours_after dto existing =
    if is_new_amount dto.amount existing.amount
    then at_least_zero
        (or_default dto.amount existing.amount -ℤ (existing.amount -ℤ existing.counts_as_yours))
    else existing.counts_as_yours

-- `{ ...existing, ...dto }`
abbrev pub merged : UpdateTransactionDto → Transaction → Transaction
merged dto t = record t {
  type = or_default dto.type t.type;
  amount = or_default dto.amount t.amount;
  date = or_default dto.date t.date;
  category_id = or_default dto.category_id t.category_id;
  description = or_default dto.description t.description;
  from_account_id = or_default dto.from_account_id t.from_account_id;
  to_account_id = or_default dto.to_account_id t.to_account_id;
  tags = or_default dto.tags t.tags;
  note = or_default dto.note t.note;
  pending_details = or_default dto.pending_details t.pending_details;
}

-- `updated`, the movement that an edit asks for.
abbrev pub edited : UpdateTransactionDto → Transaction → Transaction
edited dto existing = record (merged dto existing) { counts_as_yours = yours_after dto existing }

-- `monetaryChanged`
abbrev pub moves_money : Transaction → Transaction → Bool
moves_money updated existing =
    not (same_type (some updated.type) existing.type)
    || not (eq_ℤ updated.amount existing.amount)
    || not (same_id updated.from_account_id existing.from_account_id)
    || not (same_id updated.to_account_id existing.to_account_id)

-- What `update` sets: the fields of the request, the day if the date moved, and the figure of yours if
-- the amount did.
abbrev pub patched : UpdateTransactionDto → Transaction → Option ℕ → Transaction → Transaction
patched dto existing day_key t = record (merged dto t) {
  day_key = if is_some day_key then day_key else t.day_key;
  counts_as_yours =
      if is_new_amount dto.amount existing.amount
      then yours_after dto existing
      else t.counts_as_yours;
}

abbrev pub revision_of : ℕ → Transaction → Revision
revision_of now t = record {
  at = now;
  amount = t.amount;
  type = t.type;
  from_account_id = t.from_account_id;
  to_account_id = t.to_account_id;
  date = t.date;
}

-- A movement that is found, and is the caller's.
abbrev pub owned : ℕ → Option Transaction → Result Transaction
owned user_id none = err (api not_found no_code)
owned user_id (some t) = if t.user_id == user_id then ok t else err (api not_found no_code)

-- `err.code ?? (err.statusCode === 404 ? "NOT_FOUND" : "BAD_REQUEST")`
abbrev pub or_status : Status → ErrorCode → ErrorCode
or_status not_found no_code = not_found_code
or_status status no_code = bad_request_code
or_status status code = code

-- `describeItemFailure`: the code of a failure that the endpoint promises.
abbrev pub describe_item_failure : Error → Option ErrorCode
describe_item_failure (domain no_code) = some validation
describe_item_failure (domain code) = some code
describe_item_failure (api status code) =
    if ltb (status_code status) 500 then some (or_status status code) else none
describe_item_failure (duplicate_key index) = none
describe_item_failure plain = none

-- `BatchUpdateResult`
pub record BatchUpdateResult : Type 0 where
  pub updated : List Transaction
  pub failed : List (ℕ × ErrorCode)

module _ {Shared : Type 0} (ledger : SharedLedger Shared) where
  abbrev pub restated :
      Option ℕ → Transaction → Transaction → Store Shared → Result (Transaction × Store Shared)
  restated none existing saved store = ok (saved, store)
  restated (some expense_id) existing saved store =
      ledger.restate_expense existing saved expense_id store

  -- The money of an edit: the old movement taken back and the new one applied, in one go.
  unfoldable pub move_edited : ℕ → Transaction → Transaction → Store Shared → Result (Store Shared)
  move_edited now existing updated store =
      if moves_money updated existing
      then (do
        (stamped, moved) ←
            move_in now
              (record { transaction = existing; direction = back }
                ∷ record { transaction = updated; direction = forward }
                ∷ [])
              store
        ok moved)
      else ok store

  -- The day of an edit, if its date is another.
  abbrev pub new_day : Calendar → ℕ → Transaction → Transaction → Result (Option ℕ)
  new_day calendar timezone updated existing =
      if updated.date == existing.date
      then ok none
      else (do day ← calendar.day_key_of updated.date timezone; ok (some day))

  -- The checks of an edit, on the movement it asks for.
  unfoldable pub assert_edit :
      ℕ → UpdateTransactionDto → Transaction → Option ℕ → Store Shared → Result (Unit {0})
  assert_edit now dto existing version store = do
    assert_fresh existing.updated_at version
    if is_some existing.shared_settlement_id then assert_only_detail_changes dto else ok tt
    assert_valid now (edited dto existing)
    if is_some dto.category_id || is_some dto.type
        then assert_category_usable (edited dto existing) existing.category_id store
        else ok tt

  -- `updateTransaction`
  unfoldable pub update_transaction :
      Calendar
      → ℕ
      → ℕ
      → ℕ
      → UpdateTransactionDto
      → ℕ
      → Option ℕ
      → Store Shared
      → Result (Transaction × Store Shared)
  update_transaction calendar timezone now id dto user_id version store = do
    throw_if (is_other dto.id id) (api bad_request no_code)
    existing ← owned user_id (get_by_id id store.rows)
    assert_edit now dto existing version store
    let updated = edited dto existing
    moved ← move_edited now existing updated (record store { journal = [] })
    day_key ← new_day calendar timezone updated existing
    (saved, rows) ←
        update now id (patched dto existing day_key)
          (if moves_money updated existing || not (updated.date == existing.date)
            then some (revision_of now existing)
            else none)
          version moved.rows
    restated existing.shared_expense_id existing saved (record moved { rows = rows })

  abbrev pub dropped : Option ℕ → Transaction → Store Shared → Result (Store Shared)
  dropped none t store = ok store
  dropped (some expense_id) t store = ledger.drop_expense_of t expense_id store

  -- `deleteTransaction`
  unfoldable pub delete_transaction : ℕ → ℕ → ℕ → Option ℕ → Store Shared → Result (Store Shared)
  delete_transaction now id user_id version store = do
    t ← owned user_id (get_by_id id store.rows)
    assert_fresh t.updated_at version
    throw_if (is_some t.shared_settlement_id) (api bad_request settlement_movement_locked)
    (same, moved) ←
        move_in now (record { transaction = t; direction = back } ∷ [])
          (record store { journal = [] })
    unshared ← dropped t.shared_expense_id t moved
    rows ← delete now id version unshared.rows
    ok (record unshared { rows = rows })

  -- `batchUpdateDetails`: the items one after the other, each in a database transaction of its own. An
  -- item that fails in a way the endpoint promises is reported; any other failure ends the batch.
  unfoldable pub batch_update_details :
      Calendar
      → ℕ
      → ℕ
      → ℕ
      → List (ℕ × UpdateTransactionDto)
      → Store Shared
      → BatchUpdateResult × Option Error × Store Shared
  batch_update_details calendar timezone now user_id [] store =
      (record { updated = []; failed = [] }, none, store)
  batch_update_details calendar timezone now user_id ((id, dto) ∷ items) store =
      elim (update_transaction calendar timezone now id dto user_id none store) [
        | ok (t, after) ↦
            (let (rest, fault, final) =
                batch_update_details calendar timezone now user_id items after in
              (record rest { updated = t ∷ rest.updated }, fault, final))
        | err e ↦ elim (describe_item_failure e) [
          | none ↦ (record { updated = []; failed = [] }, some e, store)
          | some code ↦
              (let (rest, fault, final) =
                  batch_update_details calendar timezone now user_id items store in
                (record rest { failed = (id, code) ∷ rest.failed }, fault, final))
        ]
      ]
