-- ===== src/Transactions/Service/Create.antt =====
-- `insertTransaction`, `createTransaction` and `quickAddTransaction` of
-- src/app/services/TransactionService.ts. The day of an instant is read off the calendar of luxon, a
-- parameter; `rivals` is what other requests write between the first reads of an insert and its
-- database transaction, and `others` what they write before the insert starts.
use lag_money_manager.Concurrency.{Created, create_or_replay}
use lag_money_manager.Prelude.{
  ◌==◌, if◌then◌else◌, ℕ, Bool, true, false, not, ◌&&◌, Option, none, some, List, [], ◌∷◌,
  or_default, is_some, is_none,
}
use lag_money_manager.Errors.{
  Result, ok, err, ◌>>=◌, ◌>>◌, Error, api, duplicate_key, conflict, throw_if, bad_request,
  idempotency_original_deleted, no_default_account, unprocessable_entity, row_id,
  idempotency_payload_mismatch,
}
use lag_money_manager.Accounts.{expense, transfer}
use lag_money_manager.Transactions.Balances.{is_income}
use lag_money_manager.Transactions.Rows.{get_own_by_id}
use lag_money_manager.Transactions.Service.{
  Store, IdempotencyMeta, Account, CreateTransactionDto, Transaction, ℤ, TransactionType,
  apply_and_create, IdempotencyRecord, new_transaction, expense, assert_valid,
  assert_category_usable, quick, default_of, get_by_id,
}

-- `dayKeyOf`, of an instant and a zone
pub record Calendar : Type 0 where
  pub day_key_of : ℕ → ℕ → Result ℕ

abbrev pub replayed_row : Option Transaction → Result (Option Transaction)
replayed_row none = err (api conflict idempotency_original_deleted)
replayed_row (some t) = ok (some t)

abbrev pub defaulted : Option Account → Result (Option ℕ)
defaulted none = err (api bad_request no_default_account)
defaulted (some account) = ok (some account.id)

-- `QuickAddTransactionDTO`
pub record QuickAddTransactionDto : Type 0 where
  pub id : Option ℕ
  pub amount : ℤ
  pub type : Option TransactionType
  pub date : Option ℕ
  pub category_id : Option ℕ
  pub from_account_id : Option ℕ
  pub to_account_id : Option ℕ
  pub user_id : ℕ

-- The type has an account that money leaves, or one that it reaches.
abbrev pub needs_from : TransactionType → Bool
needs_from expense = true
needs_from transfer = true
needs_from _ = false

-- The first of the movements that were stored.
abbrev pub first_of : List Transaction → Transaction → Transaction
first_of [] t = t
first_of (created ∷ rest) t = created

-- `isDuplicateKeyError(err)`
abbrev pub is_duplicate_key_error : Error → Bool
is_duplicate_key_error (duplicate_key index) = true
is_duplicate_key_error _ = false

module _ {Shared : Type 0} where
  abbrev pub replay_record :
      IdempotencyMeta → Option IdempotencyRecord → Store Shared → Result (Option Transaction)
  replay_record meta none store = ok none
  replay_record meta (some record') store = do
    throw_if (not (record'.request_hash == meta.request_hash))
        (api unprocessable_entity idempotency_payload_mismatch)
    replayed_row (get_by_id record'.transaction_id store.rows)

  -- `replayIdempotent`
  unfoldable pub replay_idempotent :
      ℕ → Option IdempotencyMeta → Store Shared → Result (Option Transaction)
  replay_idempotent user_id none store = ok none
  replay_idempotent user_id (some meta) store =
      replay_record meta (store.keys user_id meta.key) store

  -- `IdempotencyRepository.record`: the index on its id refuses a key that is used.
  unfoldable pub record_key : ℕ → Option IdempotencyMeta → ℕ → Store Shared → Result (Store Shared)
  record_key user_id none id store = ok store
  record_key user_id (some meta) id store =
      if is_some (store.keys user_id meta.key)
      then err (duplicate_key row_id)
      else ok (record store {
        keys = λ user key.
            if (user == user_id) && (key == meta.key)
            then some (record { transaction_id = id; request_hash = meta.request_hash })
            else store.keys user key;
      })

  -- The database transaction of `insertTransaction`.
  unfoldable pub write_new :
      ℕ → Transaction → Option IdempotencyMeta → Store Shared → Result (Transaction × Store Shared)
  write_new now t meta store = do
    (created, after) ← apply_and_create now (t ∷ []) (record store { journal = [] })
    keyed ← record_key t.user_id meta t.id after
    ok (first_of created t, keyed)

  abbrev pub replayed_or :
      Error → Result (Option Transaction) → Store Shared → Result (Transaction × Store Shared)
  replayed_or e (ok (some t)) raced = ok (t, raced)
  replayed_or e (ok none) raced = err e
  replayed_or e (err thrown) raced = err thrown

  -- What `insertTransaction` does with the outcome of the database transaction: `raced` is the state
  -- when it was aborted.
  abbrev pub settle_race :
      ℕ
      → Option IdempotencyMeta
      → Store Shared
      → Result (Transaction × Store Shared)
      → Result (Transaction × Store Shared)
  settle_race user_id meta raced (ok written) = ok written
  settle_race user_id meta raced (err e) =
      let again = replayed_or e (replay_idempotent user_id meta raced) raced in
      if is_some meta && is_duplicate_key_error e then again else err e

  module _ (calendar : Calendar) (timezone now fresh : ℕ)
      (rivals : Store Shared → Store Shared) where
    -- `insertTransaction` when no request with its key was stored.
    unfoldable pub insert_new :
        CreateTransactionDto
        → Option IdempotencyMeta
        → Store Shared
        → Result (Transaction × Store Shared)
    insert_new dto meta store = do
      day_key ← calendar.day_key_of dto.date timezone
      let t = new_transaction now fresh day_key dto
      assert_valid now t
      assert_category_usable t none store
      settle_race dto.user_id meta (rivals store) (write_new now t meta (rivals store))

    abbrev pub insert_unless :
        Option Transaction
        → CreateTransactionDto
        → Option IdempotencyMeta
        → Store Shared
        → Result (Transaction × Store Shared)
    insert_unless (some existing) dto meta store = ok (existing, store)
    insert_unless none dto meta store = insert_new dto meta store

    -- `insertTransaction`
    unfoldable pub insert_transaction :
        CreateTransactionDto
        → Option IdempotencyMeta
        → Store Shared
        → Result (Transaction × Store Shared)
    insert_transaction dto meta store = do
      existing ← replay_idempotent dto.user_id meta store
      insert_unless existing dto meta store

    -- `createTransaction`
    unfoldable pub create_transaction :
        (Store Shared → Store Shared)
        → CreateTransactionDto
        → Option IdempotencyMeta
        → Store Shared
        → Result (Created Transaction × Store Shared)
    create_transaction others dto meta store =
        create_or_replay (λ id s. get_own_by_id id dto.user_id s.rows)
          (λ s. insert_transaction dto meta s) dto.id others rivals store

    -- `resolveDefaultAccountId`, if the account is needed and none is named; `ids` are those of the
    -- collection.
    unfoldable pub account_or_default :
        List ℕ → ℕ → Bool → Option ℕ → Store Shared → Result (Option ℕ)
    account_or_default ids user_id needed named store =
        if needed && is_none named
        then defaulted (default_of user_id ids store.accounts)
        else ok named

    -- `insertQuickAdd`
    unfoldable pub insert_quick_add :
        List ℕ
        → QuickAddTransactionDto
        → Option IdempotencyMeta
        → Store Shared
        → Result (Transaction × Store Shared)
    insert_quick_add ids dto meta store = do
      let type = or_default dto.type expense
      from_account ← account_or_default ids dto.user_id (needs_from type) dto.from_account_id store
      to_account ← account_or_default ids dto.user_id (is_income type) dto.to_account_id store
      insert_transaction
          (record {
            id = dto.id;
            type = type;
            amount = dto.amount;
            date = or_default dto.date now;
            category_id = dto.category_id;
            description = none;
            from_account_id = from_account;
            to_account_id = to_account;
            user_id = dto.user_id;
            tags = [];
            note = none;
            pending_details = true;
            source = some quick;
            shared_settlement_id = none;
            currency = none;
            imported_from_group_id = none;
            imported_from_expense_id = none;
          })
          meta store

    -- `quickAddTransaction`
    unfoldable pub quick_add_transaction :
        (Store Shared → Store Shared)
        → List ℕ
        → QuickAddTransactionDto
        → Option IdempotencyMeta
        → Store Shared
        → Result (Created Transaction × Store Shared)
    quick_add_transaction others ids dto meta store =
        create_or_replay (λ id s. get_own_by_id id dto.user_id s.rows)
          (λ s. insert_quick_add ids dto meta s) dto.id others rivals store
