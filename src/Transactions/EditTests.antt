-- ===== src/Transactions/EditTests.antt =====
-- Runs of `updateTransaction` and `deleteTransaction` of src/app/services/TransactionService.ts on an
-- instalment that was stored, and the theorems at them.
use lag_money_manager.Prelude.{◌≡◌, refl, none, some}
use lag_money_manager.Prelude.Int.{pos, ◌+ℤ◌, ◌-ℤ◌}
use lag_money_manager.Errors.{ok}
use lag_money_manager.Concurrency.{assert_fresh, same_version}
use lag_money_manager.Money.{has_valid_precision, currency_decimals}
use lag_money_manager.Accounts.{refuse_movement}
use lag_money_manager.Accounts.Repository.{increment_balance, increment_balance_capped}
use lag_money_manager.Transactions.{
  Transaction, assert_valid, assert_figures, assert_links, assert_sides, assert_valid_precision,
}
use lag_money_manager.Transactions.Journal.{note}
use lag_money_manager.Transactions.Balances.{
  move_balances, gather, gather_sides, gather_side, apply_net, sides_of, add_net,
  assert_account_takes, assert_found, increment_account, change_balance, credit_loan,
}
use lag_money_manager.Transactions.Rows.{get_by_id, create, find, write, update, delete, last}
use lag_money_manager.Transactions.Service.{
  Store, SharedLedger, UpdateTransactionDto, assert_category_usable, move_in, create_all,
  apply_and_create,
}
use lag_money_manager.Transactions.Service.Create.{
  replay_idempotent, record_key, write_new, insert_new, insert_transaction,
}
use lag_money_manager.Transactions.Service.Edit.{
  move_edited, assert_edit, update_transaction, delete_transaction,
}
use lag_money_manager.Transactions.Service.Inserted.{IsBalanced, insert_transaction-IsBalanced}
use lag_money_manager.Transactions.Service.Removed.{delete_transaction-IsBalanced}
use lag_money_manager.Transactions.Service.Edited.{update_transaction-IsBalanced}
use lag_money_manager.Transactions.Tests.{
  store, instalment, instalment_dto, inserted, inserted_run, calendar, value_or, held-IsBooked,
}

-- A ledger of no groups.
abbrev no_groups : SharedLedger (Unit {0})
no_groups = record {
  restate_expense = λ before after id s. ok (after, s);
  drop_expense_of = λ t id s. ok s;
}

inserted-IsBalanced : IsBalanced inserted.1
inserted-IsBalanced =
    insert_transaction-IsBalanced calendar 0 50 7 (λ s. s) instalment_dto none store held-IsBooked
      held-IsBooked inserted_run

abbrev removed : Store (Unit {0})
removed = value_or store (delete_transaction no_groups 60 7 9 (some 50) inserted.1)

removed_run : delete_transaction no_groups 60 7 9 (some 50) inserted.1 ≡ ok removed
unfolding delete_transaction delete find write assert_fresh same_version insert_transaction
    insert_new write_new replay_idempotent record_key assert_category_usable assert_valid
    assert_figures assert_links assert_sides apply_and_create move_in create_all create
    move_balances gather gather_sides gather_side apply_net sides_of add_net assert_account_takes
    assert_found assert_valid_precision refuse_movement increment_account change_balance credit_loan
    increment_balance increment_balance_capped note ◌+ℤ◌ ◌-ℤ◌ has_valid_precision currency_decimals
removed_run = refl

inserted_row : get_by_id 7 inserted.1.rows ≡ some (record instalment { currency = some "USD" })
unfolding find insert_transaction insert_new write_new replay_idempotent record_key
    assert_category_usable assert_valid assert_figures assert_links assert_sides apply_and_create
    move_in create_all create move_balances gather gather_sides gather_side apply_net sides_of
    add_net assert_account_takes assert_found assert_valid_precision refuse_movement
    increment_account change_balance credit_loan increment_balance increment_balance_capped note
    ◌+ℤ◌ ◌-ℤ◌ has_valid_precision currency_decimals
inserted_row = refl

delete_transaction-IsBalanced_example : IsBalanced removed
delete_transaction-IsBalanced_example =
    delete_transaction-IsBalanced no_groups 60 7 9 (some 50) inserted.1
      (record instalment { currency = some "USD" }) inserted_row refl inserted-IsBalanced
      removed_run

-- The instalment was of 40.00.
abbrev more : UpdateTransactionDto
more = record {
  id = none;
  type = none;
  amount = some (pos 4000);
  date = none;
  category_id = none;
  description = none;
  from_account_id = none;
  to_account_id = none;
  tags = none;
  note = none;
  pending_details = none;
}

abbrev corrected : Transaction × Store (Unit {0})
corrected =
    value_or (instalment, store)
      (update_transaction no_groups calendar 0 60 7 more 9 none inserted.1)

corrected_run : update_transaction no_groups calendar 0 60 7 more 9 none inserted.1 ≡ ok corrected
unfolding update_transaction move_edited assert_edit update find write last assert_fresh
    same_version insert_transaction insert_new write_new replay_idempotent record_key
    assert_category_usable assert_valid assert_figures assert_links assert_sides apply_and_create
    move_in create_all create move_balances gather gather_sides gather_side apply_net sides_of
    add_net assert_account_takes assert_found assert_valid_precision refuse_movement
    increment_account change_balance credit_loan increment_balance increment_balance_capped note
    ◌+ℤ◌ ◌-ℤ◌ has_valid_precision currency_decimals
corrected_run = refl

update_transaction-IsBalanced_example : IsBalanced corrected.1
update_transaction-IsBalanced_example =
    update_transaction-IsBalanced no_groups calendar 0 60 7 more 9 none inserted.1
      (record instalment { currency = some "USD" }) inserted_row refl inserted-IsBalanced
      corrected_run
