-- ===== src/Accounts/Service.antt =====
-- src/app/services/AccountService.ts and src/app/dtos/AccountDTO.ts. A request is a function from the collection to a
-- result. What other requests write between two reads of one request is an argument. The currency
-- of a user is a parameter, and so is what the unique indexes refuse.
use Prim.Native.String.{String}
use lag_money_manager.Prelude.{
  ℕ, Bool, false, not, ◌&&◌, ◌||◌, Option, none, some, is_none, is_some, List, ◌==◌, leb,
  or_default, if◌then◌else◌,
}
use lag_money_manager.Prelude.Int.{ℤ, pos, ltb_ℤ}
use lag_money_manager.Errors.{
  Result, ok, err, ◌>>◌, throw_if, Error, api, bad_request, not_found, no_code, loan_overpaid,
  account_limit_reached, account_field_not_for_type, resource_archived,
}
use lag_money_manager.Money.{assert_amount_precision}
use lag_money_manager.Concurrency.{assert_fresh, guarded_write, Created, create_or_replay}
use lag_money_manager.Accounts.{
  Account, Accounts, AccountType, is_loan, has_credit_limit, has_borrowed_amount,
}
use lag_money_manager.Accounts.Repository.{
  get_own_by_id, get_by_id_including_archived, is_active, count_by_user_id, Indexes, create, update,
  set_default, name_or,
}

-- `CreateAccountDTO`; `new_id` stands for a fresh id where none is given.
pub record CreateAccountDto : Type 0 where
  pub id : Option ℕ
  pub name : String
  pub type : AccountType
  pub balance : ℤ
  pub color : Option ℕ
  pub credit_limit : Option ℤ
  pub borrowed_amount : Option ℤ
  pub user_id : ℕ

-- `UpdateAccountDTO`: a field is left out, cleared with `null`, or given.
pub record UpdateAccountDto : Type 0 where
  pub id : Option ℕ
  pub name : Option String
  pub type : Option AccountType
  pub color : Option ℕ
  pub credit_limit : Option (Option ℤ)
  pub borrowed_amount : Option (Option ℤ)

-- `MAX_ACCOUNTS_PER_USER`
abbrev pub max_accounts_per_user : ℕ
max_accounts_per_user = 100

abbrev pub missing : Error
missing = api not_found no_code

-- `currency ?? DEFAULT_CURRENCY`
abbrev pub currency_or_default : Option String → Option String
currency_or_default currency = some (or_default currency "COP")

-- `afterWrite`
abbrev pub after_write {ℓ} : {A : Type ℓ} → Option (Option A) → Option A → Option A
after_write none stored = stored
after_write (some sent) stored = sent

-- `assertLoanNotInCredit`
abbrev pub assert_loan_not_in_credit : AccountType → ℤ → Result (Unit {0})
assert_loan_not_in_credit type balance =
    throw_if (is_loan type && ltb_ℤ (pos 0) balance) (api bad_request loan_overpaid)

-- `assertRoomForOneMore`
abbrev pub assert_room_for_one_more : ℕ → Result (Unit {0})
assert_room_for_one_more count =
    throw_if (leb max_accounts_per_user count) (api bad_request account_limit_reached)

abbrev pub assert_sent : Option ℤ → Option String → Result (Unit {0})
assert_sent none currency = ok tt
assert_sent (some amount) currency = assert_amount_precision amount currency

-- One round of the loop of `assertDebtFields`.
abbrev pub assert_debt_field : Bool → Option ℤ → Option ℤ → Option String → Result (Unit {0})
assert_debt_field allowed none written currency = ok tt
assert_debt_field allowed (some amount) written currency = do
  throw_if (not allowed) (api bad_request account_field_not_for_type)
  assert_sent written currency

-- `assertDebtFields`
unfoldable pub assert_debt_fields :
    AccountType → Option ℤ → Option ℤ → Option String → Option ℤ → Option ℤ → Result (Unit {0})
assert_debt_fields type credit_limit borrowed_amount currency credit_sent borrowed_sent = do
  assert_debt_field (has_credit_limit type) credit_limit credit_sent currency
  assert_debt_field (has_borrowed_amount type) borrowed_amount borrowed_sent currency

-- `new Account({ ...dto, isDefault: count === 0, currency })`, as it is stored.
abbrev pub new_account : ℕ → ℕ → Bool → Option String → CreateAccountDto → Account
new_account now new_id is_default currency dto = record {
  id = or_default dto.id new_id;
  name = dto.name;
  type = dto.type;
  balance = dto.balance;
  opening_balance = dto.balance;
  color = dto.color;
  credit_limit = dto.credit_limit;
  borrowed_amount = dto.borrowed_amount;
  user_id = dto.user_id;
  is_default = is_default;
  currency = currency;
  archived_at = none;
  updated_at = some now;
}

-- `insertAccount`: others write between the count and the create.
unfoldable pub insert_account :
    Indexes
    → (ℕ → Option String)
    → List ℕ
    → ℕ
    → ℕ
    → CreateAccountDto
    → (Accounts → Accounts)
    → Accounts
    → Result (Account × Accounts)
insert_account refuses currency_of ids now new_id dto others accounts =
    let count = count_by_user_id dto.user_id ids accounts in
    let currency = currency_or_default (currency_of dto.user_id) in
    do
      assert_room_for_one_more count
      assert_amount_precision dto.balance currency
      assert_debt_fields dto.type dto.credit_limit dto.borrowed_amount currency dto.credit_limit
          dto.borrowed_amount
      assert_loan_not_in_credit dto.type dto.balance
      create refuses (new_account now new_id (count == 0) currency dto) (others accounts)

-- `createAccount`
abbrev pub create_account :
    Indexes
    → (ℕ → Option String)
    → List ℕ
    → ℕ
    → ℕ
    → CreateAccountDto
    → (Accounts → Accounts)
    → (Accounts → Accounts)
    → Accounts
    → Result (Created Account × Accounts)
create_account refuses currency_of ids now new_id dto others rivals accounts =
    create_or_replay (λ id s. get_own_by_id id dto.user_id s)
      (insert_account refuses currency_of ids now new_id dto (λ s. s)) dto.id others rivals accounts

abbrev pub not_default : Option Account → Option ℕ → Result (Account × Accounts)
not_default none version = err missing
not_default (some current) version = do assert_fresh current.updated_at version; err missing

abbrev pub default_or_not :
    Option Account × Accounts → Option Account → Option ℕ → Result (Account × Accounts)
default_or_not (some a, accounts) current version = ok (a, accounts)
default_or_not (none, accounts) current version = not_default current version

-- `setDefaultAccount`
unfoldable pub set_default_account :
    ℕ → ℕ → ℕ → Option ℕ → (Accounts → Accounts) → Accounts → Result (Account × Accounts)
set_default_account now id user_id version others accounts =
    default_or_not (set_default now id user_id version accounts)
      (get_own_by_id id user_id (others accounts)) version

-- What a field of `amounts` is judged by.
abbrev pub judged : Bool → Option (Option ℤ) → Option ℤ → Option ℤ
judged type_sent sent stored =
    if is_none sent && not type_sent then none else after_write sent stored

abbrev pub sent_amount : Option (Option ℤ) → Option ℤ
sent_amount none = none
sent_amount (some amount) = amount

-- The update document of `toUpdate`.
abbrev pub patched : ℕ → UpdateAccountDto → Account → Account
patched now dto a = record a {
  name = name_or dto.name a.name;
  type = or_default dto.type a.type;
  color = elim dto.color [ none ↦ a.color | some color ↦ some color ];
  credit_limit = after_write dto.credit_limit a.credit_limit;
  borrowed_amount = after_write dto.borrowed_amount a.borrowed_amount;
  updated_at = some now;
}

-- Whether a write leans on what was read: the type, or a field of debt.
abbrev pub leans : UpdateAccountDto → Bool
leans dto = is_some dto.type || is_some dto.credit_limit || is_some dto.borrowed_amount

abbrev pub guard_of : UpdateAccountDto → Option ℕ → Option ℕ → Option ℕ
guard_of dto none stored = if leans dto then stored else none
guard_of dto (some version) stored = some version

abbrev pub assert_patch : UpdateAccountDto → Account → Result (Unit {0})
assert_patch dto existing =
    let type = or_default dto.type existing.type in
    do
      assert_debt_fields type (judged (is_some dto.type) dto.credit_limit existing.credit_limit)
          (judged (is_some dto.type) dto.borrowed_amount existing.borrowed_amount)
          (currency_or_default existing.currency) (sent_amount dto.credit_limit)
          (sent_amount dto.borrowed_amount)
      assert_loan_not_in_credit type existing.balance

abbrev pub stamp_found : Option Account → Option (Option ℕ)
stamp_found none = none
stamp_found (some a) = some a.updated_at

abbrev pub update_existing :
    Indexes
    → ℕ
    → ℕ
    → UpdateAccountDto
    → ℕ
    → Option ℕ
    → (Accounts → Accounts)
    → Option Account
    → Accounts
    → Result (Account × Accounts)
update_existing refuses now id dto user_id version others none accounts = err missing
update_existing refuses now id dto user_id version others (some existing) accounts =
    let guard = guard_of dto version existing.updated_at in
    let written = update refuses id (patched now dto) guard (others accounts) in
    do
      throw_if (not (existing.user_id == user_id)) missing
      assert_fresh existing.updated_at version
      throw_if (not (is_active existing)) (api bad_request resource_archived)
      assert_patch dto existing
      guarded_write guard written (stamp_found (get_own_by_id id user_id (others accounts)))

abbrev pub other_id : Option ℕ → ℕ → Bool
other_id none id = false
other_id (some sent) id = not (sent == id)

-- `updateAccount`
unfoldable pub update_account :
    Indexes
    → ℕ
    → ℕ
    → UpdateAccountDto
    → ℕ
    → Option ℕ
    → (Accounts → Accounts)
    → Accounts
    → Result (Account × Accounts)
update_account refuses now id dto user_id version others accounts = do
  throw_if (other_id dto.id id) (api bad_request no_code)
  update_existing refuses now id dto user_id version others
      (get_by_id_including_archived id accounts) accounts
