-- ===== src/Accounts/Requests.antt =====
-- The archive of src/app/services/AccountService.ts: `deleteAccount` and `restoreAccount`, which read again when a
-- write found no row. `others` is what other requests write between the first read and the write.
use Prim.Native.String.{String}
use lag_money_manager.Prelude.{ℕ, Option, none, some, List, ◌==◌, if◌then◌else◌}
use lag_money_manager.Errors.{
  Result, ok, err, ◌>>=◌, ◌>>◌, throw_if, Error, api, bad_request, default_account_archive_blocked,
}
use lag_money_manager.Concurrency.{assert_fresh}
use lag_money_manager.Accounts.{Account, Accounts}
use lag_money_manager.Accounts.Repository.{
  is_active, archive_non_default, restore, count_by_user_id, get_by_id_including_archived,
}
use lag_money_manager.Accounts.Service.{missing, assert_room_for_one_more}

abbrev pub archive_blocked : Error
archive_blocked = api bad_request default_account_archive_blocked

-- `!account || account.userId !== userId`
abbrev pub own : ℕ → Option Account → Result Account
own user_id none = err missing
own user_id (some a) = if a.user_id == user_id then ok a else err missing

-- What a delete that lost a race answers, by the row as it is now.
abbrev pub archived_or_blocked :
    ℕ → Option ℕ → Option Account → Accounts → Result (Account × Accounts)
archived_or_blocked user_id version found accounts = do
  current ← own user_id found
  assert_fresh current.updated_at version
  throw_if (is_active current) archive_blocked
  ok (current, accounts)

abbrev pub archived_now : ℕ → ℕ → Option ℕ → Option Account × Accounts → Result (Account × Accounts)
archived_now id user_id version (some a, accounts) = ok (a, accounts)
archived_now id user_id version (none, accounts) =
    archived_or_blocked user_id version (get_by_id_including_archived id accounts) accounts

-- `deleteAccount`, from the row that it read.
abbrev pub delete_existing :
    ℕ → ℕ → ℕ → Option ℕ → (Accounts → Accounts) → Account → Accounts → Result (Account × Accounts)
delete_existing now id user_id version others existing accounts =
    let blocked = throw_if existing.is_default archive_blocked in
    let written =
      archived_now id user_id version
        (archive_non_default now id user_id version (others accounts)) in
    do
      assert_fresh existing.updated_at version
      if is_active existing then (blocked >> written) else ok (existing, accounts)

-- `deleteAccount`
unfoldable pub delete_account :
    ℕ → ℕ → ℕ → Option ℕ → (Accounts → Accounts) → Accounts → Result (Account × Accounts)
delete_account now id user_id version others accounts = do
  existing ← own user_id (get_by_id_including_archived id accounts)
  delete_existing now id user_id version others existing accounts

-- What a restore that lost a race answers.
abbrev pub active_by_now : ℕ → Option ℕ → Option Account → Accounts → Result (Account × Accounts)
active_by_now user_id version found accounts = do
  raced ← own user_id found
  assert_fresh raced.updated_at version
  ok (raced, accounts)

abbrev pub restored_now : ℕ → ℕ → Option ℕ → Option Account × Accounts → Result (Account × Accounts)
restored_now id user_id version (some a, accounts) = ok (a, accounts)
restored_now id user_id version (none, accounts) =
    active_by_now user_id version (get_by_id_including_archived id accounts) accounts

abbrev pub restore_existing :
    List ℕ
    → ℕ
    → ℕ
    → ℕ
    → Option String
    → Option ℕ
    → (Accounts → Accounts)
    → Account
    → Accounts
    → Result (Account × Accounts)
restore_existing ids now id user_id name version others existing accounts =
    let room = assert_room_for_one_more (count_by_user_id user_id ids accounts) in
    let written =
      restored_now id user_id version (restore now id user_id name version (others accounts)) in
    do
      assert_fresh existing.updated_at version
      if is_active existing then ok (existing, accounts) else (room >> written)

-- `restoreAccount`
unfoldable pub restore_account :
    List ℕ
    → ℕ
    → ℕ
    → ℕ
    → Option String
    → Option ℕ
    → (Accounts → Accounts)
    → Accounts
    → Result (Account × Accounts)
restore_account ids now id user_id name version others accounts = do
  existing ← own user_id (get_by_id_including_archived id accounts)
  restore_existing ids now id user_id name version others existing accounts
