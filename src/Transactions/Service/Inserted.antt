-- ===== src/Transactions/Service/Inserted.antt =====
-- `insertTransaction` of src/app/services/TransactionService.ts: the races on its key, and the
-- balances.
use mathlib.Core.Path.{subst}
use lag_money_manager.Prelude.{
  ℕ, ◌≡◌, refl, Option, none, some, [], ◌∷◌, Bool-cases, inl, inr, ◌&&◌, is_some,
}
use lag_money_manager.Errors.{Result, ok, err, Error, >>=-eq-ok, >>-eq-ok, ok_inj}
use lag_money_manager.Transactions.{Transaction, assert_valid}
use lag_money_manager.Transactions.Service.{
  Store, IdempotencyMeta, CreateTransactionDto, apply_and_create, assert_category_usable,
  new_transaction,
}
use lag_money_manager.Transactions.Service.Create.{
  Calendar, replay_idempotent, record_key, write_new, settle_race, replayed_or,
  is_duplicate_key_error, insert_new, insert_unless, insert_transaction,
}
use lag_money_manager.Transactions.Service.Booked.{IsBooked, apply_and_create-IsBooked}

module _ {Shared : Type 0} where
  -- The balances of a store are what its movements make them.
  abbrev pub IsBalanced : Store Shared → Type 0
  IsBalanced store = IsBooked store.accounts store.rows

  record_key-IsBalanced :
      (user_id : ℕ) (meta : Option IdempotencyMeta) (id : ℕ) (store : Store Shared)
      {s : Store Shared}
      → IsBalanced store
      → record_key user_id meta id store ≡ ok s
      → IsBalanced s
  unfolding record_key
  record_key-IsBalanced user_id none id store b h = subst IsBalanced (ok_inj h) b
  record_key-IsBalanced user_id (some meta) id store b h =
      elim (Bool-cases (is_some (store.keys user_id meta.key))) [
        | inl e ↦ (let k = rw e at h in cc)
        | inr e ↦ subst IsBalanced (ok_inj (rw e at h)) b
      ]

  write_new-IsBalanced :
      (now : ℕ) (t : Transaction) (meta : Option IdempotencyMeta) (store : Store Shared)
      {z : Transaction × Store Shared}
      → IsBalanced store
      → write_new now t meta store ≡ ok z
      → IsBalanced z.1
  unfolding write_new
  write_new-IsBalanced now t meta store b h =
      let (r, k, q) =
        >>=-eq-ok (apply_and_create now (t ∷ []) (record store { journal = [] })) _ h in
      let (s, k', q') = >>=-eq-ok (record_key t.user_id meta t.id r.1) _ q in
      subst (λ (w : Transaction × Store Shared). IsBalanced w.1) (ok_inj q')
        (record_key-IsBalanced t.user_id meta t.id r.1
          (apply_and_create-IsBooked now (t ∷ []) (record store { journal = [] }) b k) k')

  replayed_or-IsBalanced :
      (e : Error) (r : Result (Option Transaction)) (raced : Store Shared)
      {z : Transaction × Store Shared}
      → IsBalanced raced
      → replayed_or e r raced ≡ ok z
      → IsBalanced z.1
  replayed_or-IsBalanced e (ok (some t)) raced b h =
      subst (λ (w : Transaction × Store Shared). IsBalanced w.1) (ok_inj h) b
  replayed_or-IsBalanced e (ok none) raced b h = cc
  replayed_or-IsBalanced e (err thrown) raced b h = cc

  settle_race-IsBalanced :
      (user_id : ℕ) (meta : Option IdempotencyMeta) (raced : Store Shared)
      (r : Result (Transaction × Store Shared)) {z : Transaction × Store Shared}
      → IsBalanced raced
      → ((w : Transaction × Store Shared) → r ≡ ok w → IsBalanced w.1)
      → settle_race user_id meta raced r ≡ ok z
      → IsBalanced z.1
  settle_race-IsBalanced user_id meta raced (ok w) b f h =
      subst (λ (w : Transaction × Store Shared). IsBalanced w.1) (ok_inj h) (f w refl)
  settle_race-IsBalanced user_id meta raced (err e) b f h =
      elim (Bool-cases (is_some meta && is_duplicate_key_error e)) [
        | inl d ↦
            replayed_or-IsBalanced e (replay_idempotent user_id meta raced) raced b (rw d at h)
        | inr d ↦ (let k = rw d at h in cc)
      ]

  module _ (calendar : Calendar) (timezone now fresh : ℕ)
      (rivals : Store Shared → Store Shared) where
    insert_unless-IsBalanced :
        (existing : Option Transaction) (dto : CreateTransactionDto) (meta : Option IdempotencyMeta)
        (store : Store Shared) {z : Transaction × Store Shared}
        → IsBalanced store
        → IsBalanced (rivals store)
        → insert_unless calendar timezone now fresh rivals existing dto meta store ≡ ok z
        → IsBalanced z.1
    unfolding insert_new
    insert_unless-IsBalanced (some t) dto meta store b c h =
        subst (λ (w : Transaction × Store Shared). IsBalanced w.1) (ok_inj h) b
    insert_unless-IsBalanced none dto meta store b c h =
        let (day_key, k, q) = >>=-eq-ok (calendar.day_key_of dto.date timezone) _ h in
        let t = new_transaction now fresh day_key dto in
        let (u, q2) = >>-eq-ok (assert_valid now t) _ q in
        let (v, q3) = >>-eq-ok (assert_category_usable t none store) _ q2 in
        settle_race-IsBalanced dto.user_id meta (rivals store) (write_new now t meta (rivals store))
          c (λ w. write_new-IsBalanced now t meta (rivals store) c) q3

    -- A movement that is inserted, or replayed under its key, keeps every balance what the stored
    -- movements make it, if what other requests write meanwhile does.
    pub insert_transaction-IsBalanced :
        (dto : CreateTransactionDto) (meta : Option IdempotencyMeta) (store : Store Shared)
        {z : Transaction × Store Shared}
        → IsBalanced store
        → IsBalanced (rivals store)
        → insert_transaction calendar timezone now fresh rivals dto meta store ≡ ok z
        → IsBalanced z.1
    unfolding insert_transaction
    insert_transaction-IsBalanced dto meta store b c h =
        let (existing, k, q) = >>=-eq-ok (replay_idempotent dto.user_id meta store) _ h in
        insert_unless-IsBalanced existing dto meta store b c q
