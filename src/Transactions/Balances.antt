-- ===== src/Transactions/Balances.antt =====
-- src/app/services/TransactionService.ts, `moveBalances` and what it calls: the accounts that
-- movements of money change, inside one database transaction. An error aborts that transaction, so
-- nothing is kept of the state when a call throws.
pub mod Effect
pub mod Net
pub mod Checks
pub mod Loans
pub mod LoanCap
use Prim.Native.String.{String}
use text.Mathlib.Text.{◌==◌ as str_eq}
use lag_money_manager.Prelude.{
  ℕ, Bool, true, false, not, Option, none, some, List, [], ◌∷◌, ◌++◌, ◌==◌, if◌then◌else◌,
}
use lag_money_manager.Prelude.Int.{ℤ, pos, negsuc, ◌+ℤ◌, ◌-ℤ◌, ltb_ℤ}
use lag_money_manager.Errors.{
  Result, ok, err, ◌>>=◌, ◌>>◌, throw_if, api, ErrorCode, no_code, not_found, bad_request,
  internal_server_error, currency_mismatch, loan_overpaid,
}
use lag_money_manager.Accounts.{
  Account, Accounts, TransactionType, income, MovementSide, from, to, is_loan, refuse_movement, put,
}
use lag_money_manager.Accounts.Repository.{
  get_by_id, get_by_id_including_archived, increment_balance, increment_balance_capped, Capped,
  applied, over, missing,
}
use lag_money_manager.Transactions.{Transaction, assert_valid_precision, is_expense}
use lag_money_manager.Transactions.Journal.{Journal, Entity, note}

-- `1 | -1`, the direction of a move: applied, or taken back.
pub data Direction : Type 0 where
  forward back : Direction

-- `BalanceMove`
pub record BalanceMove : Type 0 where
  pub transaction : Transaction
  pub direction : Direction

abbrev pub is_income : TransactionType → Bool
is_income income = true
is_income _ = false

abbrev pub side_if : Bool → Option ℕ → MovementSide → List (ℕ × MovementSide)
side_if true (some id) side = (id, side) ∷ []
side_if _ _ side = []

-- `sidesOf`: an account that money leaves, `from`, has sign -1, and one it reaches has sign 1.
unfoldable pub sides_of : Transaction → List (ℕ × MovementSide)
sides_of t =
    side_if (not (is_income t.type)) t.from_account_id from
    ++ side_if (not (is_expense t.type)) t.to_account_id to

-- `toCents(transaction.amount) * sign * direction`
abbrev pub signed : MovementSide → Direction → ℤ → ℤ
signed from forward amount = pos 0 -ℤ amount
signed to forward amount = amount
signed from back amount = amount
signed to back amount = pos 0 -ℤ amount

-- Two texts that are there and differ.
abbrev pub differ : Option String → Option String → Bool
differ (some a) (some b) = not (str_eq a b)
differ _ _ = false

-- `a ?? b`
abbrev pub or_else : Option String → Option String → Option String
or_else (some a) b = some a
or_else none b = b

abbrev pub refuse : Option ErrorCode → Result (Unit {0})
refuse none = ok tt
refuse (some code) = err (api bad_request code)

-- What `net` and `applied` hold.
pub record Gathered : Type 0 where
  pub net : List (ℕ × ℤ)
  pub taken : Accounts

-- `net.set(accountId, (net.get(accountId) ?? 0) + cents)`, a `Map` in the order of first insertion.
unfoldable pub add_net : ℕ → ℤ → List (ℕ × ℤ) → List (ℕ × ℤ)
add_net id cents [] = (id, pos 0 +ℤ cents) ∷ []
add_net id cents ((other, sum) ∷ net) =
    let rest = add_net id cents net in
    if other == id then (other, sum +ℤ cents) ∷ net else (other, sum) ∷ rest

-- What a database transaction changes here: the accounts, and the journal of what it rewrites.
pub record Books : Type 0 where
  pub accounts : Accounts
  pub journal : Journal

-- The checks of `assertAccountTakes` on an account that was found. The movement takes over the
-- account's currency, which the sides after this one see.
unfoldable pub assert_found : Transaction → MovementSide → Account → Result (Transaction × Account)
assert_found t side account = do
  throw_if (not (account.user_id == t.user_id)) (api not_found no_code)
  throw_if (differ t.currency account.currency) (api bad_request currency_mismatch)
  let stamped = record t { currency = or_else t.currency account.currency }
  assert_valid_precision stamped
  refuse (refuse_movement t.type account.type side)
  ok (stamped, account)

abbrev pub assert_takes :
    Transaction → MovementSide → Option Account → Result (Transaction × Account)
assert_takes t side none = err (api not_found no_code)
assert_takes t side (some account) = assert_found t side account

-- `assertAccountTakes`
unfoldable pub assert_account_takes :
    Accounts → Transaction → ℕ → MovementSide → Result (Transaction × Account)
assert_account_takes accounts t id side = assert_takes t side (get_by_id id accounts)

-- One round of the inner loop of `moveBalances`.
unfoldable pub gather_side :
    Accounts
    → Direction
    → ℕ × MovementSide
    → Transaction
    → Gathered
    → Result (Transaction × Gathered)
gather_side accounts forward (id, side) t g = do
  (stamped, account) ← assert_account_takes accounts t id side
  ok (
    stamped,
    record {
      net = add_net id (signed side forward t.amount) g.net;
      taken = put id account g.taken;
    },
  )
gather_side accounts back (id, side) t g =
    ok (t, record g { net = add_net id (signed side back t.amount) g.net })

unfoldable pub gather_sides :
    Accounts
    → Direction
    → List (ℕ × MovementSide)
    → Transaction
    → Gathered
    → Result (Transaction × Gathered)
gather_sides accounts direction [] t g = ok (t, g)
gather_sides accounts direction (side ∷ sides) t g = do
  (stamped, gathered) ← gather_side accounts direction side t g
  gather_sides accounts direction sides stamped gathered

-- The first loop of `moveBalances`, and the movements as it leaves them.
unfoldable pub gather :
    Accounts → List BalanceMove → Gathered → Result (List Transaction × Gathered)
gather accounts [] g = ok ([], g)
gather accounts (move ∷ moves) g = do
  (stamped, gathered) ←
      gather_sides accounts move.direction (sides_of move.transaction) move.transaction g
  (rest, final) ← gather accounts moves gathered
  ok (stamped ∷ rest, final)

-- `applied ?? getByIdIncludingArchived(accountId)`
abbrev pub or_stored : Option Account → Option Account → Option Account
or_stored (some account) stored = some account
or_stored none stored = stored

-- `target`: the account a credit lands on.
abbrev pub target_of : ℤ → Option Account → Option Account → Option Account
target_of cents taken stored = if ltb_ℤ (pos 0) cents then or_stored taken stored else none

abbrev pub capped_result : Capped → Books → Result Books
capped_result applied books = ok books
capped_result over books = err (api bad_request loan_overpaid)
capped_result missing books = err (api internal_server_error no_code)

-- The credit of a loan, which is capped at zero.
unfoldable pub credit_loan : ℕ → ℕ → ℤ → Account → Books → Result Books
credit_loan now id cents target books = do
  noted ← note Entity.account target.id target.updated_at books.journal
  let (outcome, accounts) = increment_balance_capped now id cents (pos 0) books.accounts
  capped_result outcome (record { accounts = accounts; journal = noted })

abbrev pub noted_increment : ℕ → Option (Option ℕ × Accounts) → Books → Result Books
noted_increment id none books = err (api internal_server_error no_code)
noted_increment id (some (before, accounts)) books = do
  noted ← note Entity.account id before books.journal
  ok (record { accounts = accounts; journal = noted })

-- Any other change of an account.
unfoldable pub change_balance : ℕ → ℕ → ℤ → Books → Result Books
change_balance now id cents books =
    noted_increment id (increment_balance now id cents books.accounts) books

abbrev pub increment_target : ℕ → ℕ → ℤ → Option Account → Books → Result Books
increment_target now id cents none books = change_balance now id cents books
increment_target now id cents (some target) books =
    if is_loan target.type
    then credit_loan now id cents target books
    else change_balance now id cents books

-- `incrementAccount`
unfoldable pub increment_account : ℕ → ℕ → ℤ → Option Account → Books → Result Books
increment_account now id cents taken books =
    increment_target now id cents
      (target_of cents taken (get_by_id_including_archived id books.accounts)) books

-- `cents === 0`
abbrev pub is_zero : ℤ → Bool
is_zero (pos n) = n == 0
is_zero (negsuc n) = false

-- The second loop of `moveBalances`.
unfoldable pub apply_net : ℕ → Accounts → List (ℕ × ℤ) → Books → Result Books
apply_net now taken [] books = ok books
apply_net now taken ((id, cents) ∷ net) books = do
  next ← if is_zero cents then ok books else increment_account now id cents (taken id) books
  apply_net now taken net next

-- `moveBalances`, with the movements as it leaves them.
unfoldable pub move_balances : ℕ → List BalanceMove → Books → Result (List Transaction × Books)
move_balances now moves books = do
  (stamped, g) ← gather books.accounts moves (record { net = []; taken = λ id. none })
  next ← apply_net now g.taken g.net books
  ok (stamped, next)
