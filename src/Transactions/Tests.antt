-- ===== src/Transactions/Tests.antt =====
-- Runs of src/app/services/TransactionService.ts on a wallet and a loan, and the theorems at them.
use mathlib.Core.Path.{subst}
use lag_money_manager.Prelude.{
  true, false, ◌≡◌, refl, none, some, List, [], ◌∷◌, All, ◌==◌, arith, Bool-cases, any, inl, inr,
}
use lag_money_manager.Prelude.Int.{pos, negsuc, ◌+ℤ◌, ◌-ℤ◌}
use lag_money_manager.Errors.{Result, ok, err, ◌>>=◌, ok_inj}
use lag_money_manager.Concurrency.{create_or_replay, create_or_replay_twice}
use lag_money_manager.Money.{has_valid_precision, currency_decimals}
use lag_money_manager.Accounts.{Account, Accounts, cash, loan, transfer, put, refuse_movement}
use lag_money_manager.Accounts.Repository.{increment_balance, increment_balance_capped}
use lag_money_manager.Transactions.{
  Transaction, assert_valid, assert_figures, assert_links, assert_sides, assert_valid_precision,
}
use lag_money_manager.Transactions.Validity.{IsWellFormed, assert_valid_iff}
use lag_money_manager.Transactions.Journal.{note}
use lag_money_manager.Transactions.Balances.{
  BalanceMove, Books, forward, move_balances, gather, gather_sides, gather_side, apply_net,
  sides_of, add_net, assert_account_takes, assert_found, increment_account, change_balance,
  credit_loan,
}
use lag_money_manager.Transactions.Balances.Effect.{Moved}
use lag_money_manager.Transactions.Balances.Net.{effects, move_balances_moves}
use lag_money_manager.Transactions.Balances.Checks.{IsTaken, move_balances-IsTaken}
use lag_money_manager.Transactions.Balances.Loans.{LoansOwed}
use lag_money_manager.Transactions.Balances.LoanCap.{move_balances-LoansOwed}
use lag_money_manager.Transactions.Rows.{Row, create, find, get_own_by_id}
use lag_money_manager.Transactions.Service.{
  Store, CreateTransactionDto, new_transaction, assert_category_usable, move_in, create_all,
  apply_and_create,
}
use lag_money_manager.Transactions.Service.Create.{
  Calendar, replay_idempotent, record_key, write_new, insert_new, insert_transaction,
}
use lag_money_manager.Transactions.Service.Booked.{IsBooked, booked, apply_and_create-IsBooked}
use lag_money_manager.Transactions.Service.Inserted.{IsBalanced, insert_transaction-IsBalanced}

abbrev wallet : Account
wallet = record {
  id = 1;
  name = "wallet";
  type = cash;
  balance = pos 10000;
  opening_balance = pos 10000;
  color = none;
  credit_limit = none;
  borrowed_amount = none;
  user_id = 9;
  is_default = true;
  currency = some "USD";
  archived_at = none;
  updated_at = some 5;
}

abbrev car_loan : Account
car_loan = record wallet {
  id = 2;
  name = "car";
  type = loan;
  balance = negsuc 4999;
  opening_balance = negsuc 4999;
  is_default = false;
}

abbrev held : Accounts
held = put 1 wallet (put 2 car_loan (λ i. none))

abbrev books : Books
books = record { accounts = held; journal = [] }

-- An instalment: 30.00 from the wallet to the loan.
abbrev pub instalment_dto : CreateTransactionDto
instalment_dto = record {
  id = some 7;
  type = transfer;
  amount = pos 3000;
  date = 40;
  category_id = none;
  description = none;
  from_account_id = some 1;
  to_account_id = some 2;
  user_id = 9;
  tags = [];
  note = none;
  pending_details = false;
  source = none;
  shared_settlement_id = none;
  currency = none;
  imported_from_group_id = none;
  imported_from_expense_id = none;
}

abbrev pub instalment : Transaction
instalment = new_transaction 50 7 40 instalment_dto

abbrev paid : List BalanceMove
paid = record { transaction = instalment; direction = forward } ∷ []

-- What a call returned, or what it was given when it threw.
abbrev pub value_or {ℓ} : {A : Type ℓ} → A → Result A → A
value_or d (ok a) = a
value_or d (err e) = d

abbrev after : List Transaction × Books
after = value_or ([], books) (move_balances 50 paid books)

paid_run : move_balances 50 paid books ≡ ok after
unfolding move_balances gather gather_sides gather_side apply_net sides_of add_net
    assert_account_takes assert_found assert_valid_precision refuse_movement increment_account
    change_balance credit_loan increment_balance increment_balance_capped note ◌+ℤ◌ ◌-ℤ◌
    has_valid_precision currency_decimals
paid_run = refl

move_balances_moves_example : Moved (effects paid 2) (some car_loan) (after.1.accounts 2)
move_balances_moves_example = move_balances_moves 50 paid books paid_run 2

move_balances-IsTaken_example : All (IsTaken held) paid
move_balances-IsTaken_example = move_balances-IsTaken 50 paid books paid_run

held-LoansOwed : LoansOwed held
held-LoansOwed i = ground arith

move_balances-LoansOwed_example : LoansOwed after.1.accounts
move_balances-LoansOwed_example = move_balances-LoansOwed 50 paid books held-LoansOwed paid_run

instalment_valid : assert_valid 50 instalment ≡ ok tt
unfolding assert_valid assert_figures assert_links assert_sides
instalment_valid = refl

assert_valid_iff_example : IsWellFormed 50 instalment
assert_valid_iff_example = (assert_valid_iff 50 instalment).0 instalment_valid

abbrev pub store : Store (Unit {0})
store = record {
  accounts = held;
  journal = [];
  rows = [];
  keys = λ user key. none;
  categories = λ id. none;
  shared = tt;
}

abbrev stored : List Transaction × Store (Unit {0})
stored = value_or ([], store) (apply_and_create 50 (instalment ∷ []) store)

stored_run : apply_and_create 50 (instalment ∷ []) store ≡ ok stored
unfolding apply_and_create move_in create_all create move_balances gather gather_sides gather_side
    apply_net sides_of add_net assert_account_takes assert_found assert_valid_precision
    refuse_movement increment_account change_balance credit_loan increment_balance
    increment_balance_capped note ◌+ℤ◌ ◌-ℤ◌ has_valid_precision currency_decimals
stored_run = refl

pub held-IsBooked : IsBooked held []
unfolding booked ◌+ℤ◌
held-IsBooked i = ground arith

apply_and_create-IsBooked_example : IsBooked stored.1.accounts stored.1.rows
apply_and_create-IsBooked_example =
    apply_and_create-IsBooked 50 (instalment ∷ []) store held-IsBooked stored_run

-- A calendar whose days are those of the instants.
abbrev pub calendar : Calendar
calendar = record { day_key_of = λ date zone. ok date }

abbrev pub inserted : Transaction × Store (Unit {0})
inserted =
    value_or (instalment, store)
      (insert_transaction calendar 0 50 7 (λ s. s) instalment_dto none store)

pub inserted_run :
    insert_transaction calendar 0 50 7 (λ s. s) instalment_dto none store ≡ ok inserted
unfolding insert_transaction insert_new write_new replay_idempotent record_key
    assert_category_usable assert_valid assert_figures assert_links assert_sides apply_and_create
    move_in create_all create move_balances gather gather_sides gather_side apply_net sides_of
    add_net assert_account_takes assert_found assert_valid_precision refuse_movement
    increment_account change_balance credit_loan increment_balance increment_balance_capped note
    ◌+ℤ◌ ◌-ℤ◌ has_valid_precision currency_decimals
inserted_run = refl

insert_transaction-IsBalanced_example : IsBalanced inserted.1
insert_transaction-IsBalanced_example =
    insert_transaction-IsBalanced calendar 0 50 7 (λ s. s) instalment_dto none store held-IsBooked
      held-IsBooked inserted_run

-- A create that stores the instalment.
abbrev keep : List Row → Result (Transaction × List Row)
keep rows = create instalment rows >>= (λ kept. ok (instalment, kept))

keep_found :
    (t t' : List Row) (b : Transaction) → keep t ≡ ok (b, t') → get_own_by_id 7 9 t' ≡ some b
unfolding create find
keep_found t t' b h = elim (Bool-cases (any (λ (row : Row). row.transaction.id == 7) t)) [
  | inl e ↦ (let k = rw e at h in cc)
  | inr e ↦
      subst (λ (w : Transaction × List Row). get_own_by_id 7 9 w.1 ≡ some w.0) (ok_inj (rw e at h))
        refl
]

abbrev kept : List Row
kept = record { transaction = instalment; deleted_at = none; revisions = [] } ∷ []

kept_run :
    create_or_replay (λ id s. get_own_by_id id 9 s) keep (some 7) (λ s. s) (λ s. s) []
    ≡ ok (record { row = instalment; replayed = false }, kept)
unfolding create_or_replay create find
kept_run = refl

create_or_replay_twice_example :
    create_or_replay (λ id s. get_own_by_id id 9 s) keep (some 7) (λ s. s) (λ s. s) kept
    ≡ ok (record { row = instalment; replayed = true }, kept)
create_or_replay_twice_example =
    create_or_replay_twice (λ id s. get_own_by_id id 9 s) keep 7 keep_found (λ s. s) (λ s. s)
      (λ s. s) (λ s. s) [] kept_run
