-- ===== src/Accounts/Repository.antt =====
-- src/infrastructure/repositories/account/AccountRepository.ts: each call is one statement on the
-- collection, so it reads and writes at once. Every write stamps the row with the time, `now`.
use Prim.Native.String.{String}
use lag_money_manager.Prelude.{
  ℕ, suc, Bool, true, false, not, ◌&&◌, Option, none, some, is_none, is_some, List, [], ◌∷◌, ◌==◌,
  if◌then◌else◌,
}
use lag_money_manager.Prelude.Int.{ℤ, ◌+ℤ◌, ◌-ℤ◌, leb_ℤ}
use lag_money_manager.Errors.{
  Result, ok, err, api, not_found, no_code, duplicate_key, row_id, another,
}
use lag_money_manager.Accounts.{Account, Accounts, put}

-- The first row that passes a filter on its fields, out of the row with an id.
abbrev pub where_holds : (Account → Bool) → Option Account → Option Account
where_holds filter none = none
where_holds filter (some account) = if filter account then some account else none

-- `archivedAt: null`
abbrev pub is_active : Account → Bool
is_active account = is_none account.archived_at

-- `...(expectedUpdatedAt && { updatedAt: expectedUpdatedAt })`
abbrev pub at_version : Option ℕ → Account → Bool
at_version none account = true
at_version (some version) account = elim account.updated_at [
  | none ↦ false
  | some stamp ↦ stamp == version
]

-- `getById`
abbrev pub get_by_id : ℕ → Accounts → Option Account
get_by_id id accounts = where_holds is_active (accounts id)

-- `getOwnById`
abbrev pub get_own_by_id : ℕ → ℕ → Accounts → Option Account
get_own_by_id id user_id accounts =
    where_holds (λ account. account.user_id == user_id) (accounts id)

-- `getByIdIncludingArchived`
abbrev pub get_by_id_including_archived : ℕ → Accounts → Option Account
get_by_id_including_archived id accounts = accounts id

-- `$inc: { balance }`
abbrev pub incremented : ℕ → ℤ → Account → Account
incremented now delta account = record account {
  balance = account.balance +ℤ delta;
  updated_at = some now;
}

-- `incrementBalance`: the stamp from before, and archived accounts too.
abbrev pub increment_found : ℕ → ℕ → ℤ → Option Account → Accounts → Option (Option ℕ × Accounts)
increment_found now id delta none accounts = none
increment_found now id delta (some account) accounts =
    some (account.updated_at, put id (incremented now delta account) accounts)

unfoldable pub increment_balance : ℕ → ℕ → ℤ → Accounts → Option (Option ℕ × Accounts)
increment_balance now id delta accounts = increment_found now id delta (accounts id) accounts

-- What `incrementBalanceCapped` answers.
pub data Capped : Type 0 where
  applied over missing : Capped

abbrev pub cap_found : ℕ → ℕ → ℤ → ℤ → Option Account → Accounts → Capped × Accounts
cap_found now id delta max_balance none accounts = (missing, accounts)
cap_found now id delta max_balance (some account) accounts =
    if leb_ℤ account.balance (max_balance -ℤ delta)
    then (applied, put id (incremented now delta account) accounts)
    else (over, accounts)

-- `incrementBalanceCapped`
unfoldable pub increment_balance_capped : ℕ → ℕ → ℤ → ℤ → Accounts → Capped × Accounts
increment_balance_capped now id delta max_balance accounts =
    cap_found now id delta max_balance (accounts id) accounts

-- A write of the row that a filter passes, and the row as it is after it.
abbrev pub write_found :
    Option Account → (Account → Account) → ℕ → Accounts → Option Account × Accounts
write_found none change id accounts = (none, accounts)
write_found (some account) change id accounts =
    (some (change account), put id (change account) accounts)

-- `delete`
abbrev pub delete : ℕ → ℕ → Accounts → Result Accounts
delete now id accounts = elim (get_by_id id accounts) [
  | none ↦ err (api not_found no_code)
  | some account ↦
      ok (put id (record account { archived_at = some now; updated_at = some now }) accounts)
]

-- `archiveNonDefault`
unfoldable pub archive_non_default : ℕ → ℕ → ℕ → Option ℕ → Accounts → Option Account × Accounts
archive_non_default now id user_id version accounts =
    write_found
      (where_holds
        (λ a. (a.user_id == user_id) && is_active a && not a.is_default && at_version version a)
        (accounts id))
      (λ a. record a { archived_at = some now; updated_at = some now }) id accounts

-- `...(name ? { name } : {})`
abbrev pub name_or : Option String → String → String
name_or none name = name
name_or (some new_name) name = new_name

-- `restore`: the account comes back without the default flag.
unfoldable pub restore : ℕ → ℕ → ℕ → Option String → Option ℕ → Accounts → Option Account × Accounts
restore now id user_id name version accounts =
    write_found
      (where_holds (λ a. (a.user_id == user_id) && not (is_active a) && at_version version a)
        (accounts id))
      (λ a. record a {
        archived_at = none;
        is_default = false;
        name = name_or name a.name;
        updated_at = some now;
      })
      id accounts

-- `getDefaultByUserId`, over the ids of the collection.
abbrev pub default_of : ℕ → List ℕ → Accounts → Option Account
default_of user_id [] accounts = none
default_of user_id (id ∷ ids) accounts =
    let rest = default_of user_id ids accounts in
    elim (where_holds (λ a. (a.user_id == user_id) && a.is_default && is_active a) (accounts id)) [
      | none ↦ rest
      | some account ↦ some account
    ]

-- `countByUserId`, over the ids of the collection.
abbrev pub counts_for : ℕ → Option Account → Bool
counts_for user_id none = false
counts_for user_id (some a) = (a.user_id == user_id) && is_active a

unfoldable pub count_by_user_id : ℕ → List ℕ → Accounts → ℕ
count_by_user_id user_id [] accounts = 0
count_by_user_id user_id (id ∷ ids) accounts =
    let rest = count_by_user_id user_id ids accounts in
    if counts_for user_id (accounts id) then suc rest else rest

-- What the unique indexes of the collection other than that of ids refuse: a parameter.
abbrev pub Indexes : Type 0
Indexes = Accounts → Account → Bool

-- `create`
unfoldable pub create : Indexes → Account → Accounts → Result (Account × Accounts)
create refuses a accounts =
    if is_some (accounts a.id)
    then err (duplicate_key row_id)
    else if refuses accounts a
    then err (duplicate_key another)
    else ok (a, put a.id a accounts)

abbrev pub updated_row : Indexes → ℕ → Account → Accounts → Result (Account × Accounts)
updated_row refuses id a accounts =
    if refuses accounts a then err (duplicate_key another) else ok (a, put id a accounts)

abbrev pub update_found :
    Indexes → (Account → Account) → ℕ → Option Account → Accounts → Result (Account × Accounts)
update_found refuses change id none accounts = err (api not_found no_code)
update_found refuses change id (some a) accounts = updated_row refuses id (change a) accounts

-- `update`, with what `toUpdate` writes as a change of the row.
unfoldable pub update :
    Indexes → ℕ → (Account → Account) → Option ℕ → Accounts → Result (Account × Accounts)
update refuses id change version accounts =
    update_found refuses change id
      (where_holds (λ a. is_active a && at_version version a) (accounts id)) accounts

-- `others` of `setDefault`: a default account of the user loses the flag.
abbrev pub unset : ℕ → ℕ → Option Account → Option Account
unset now user_id none = none
unset now user_id (some a) =
    if (a.user_id == user_id) && a.is_default
    then some (record a { is_default = false; updated_at = some now })
    else some a

abbrev pub flagged : ℕ → Account → Account
flagged now a = record a { is_default = true; updated_at = some now }

abbrev pub set_found : ℕ → ℕ → ℕ → Option Account → Accounts → Option Account × Accounts
set_found now id user_id none accounts = (none, accounts)
set_found now id user_id (some a) accounts =
    (some (flagged now a), put id (flagged now a) (λ i. unset now user_id (accounts i)))

-- `setDefault`, one database transaction.
unfoldable pub set_default : ℕ → ℕ → ℕ → Option ℕ → Accounts → Option Account × Accounts
set_default now id user_id version accounts =
    set_found now id user_id
      (where_holds (λ a. (a.user_id == user_id) && is_active a && at_version version a)
        (accounts id))
      accounts
