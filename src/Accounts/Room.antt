-- ===== src/Accounts/Room.antt =====
-- The limit of accounts in src/app/services/AccountService.ts, which counts the accounts that are not archived.
use mathlib.Core.Path.{subst}
use Prim.Native.String.{String}
use lag_money_manager.Prelude.{
  ℕ, suc, ◌≤◌, Bool, true, false, not, ◌&&◌, ◌≡◌, refl, ap, Option, none, some, List, [], ◌∷◌, ◌==◌,
  All, leb, if◌then◌else◌, Bool-cases, inl, inr, arith,
}
use lag_money_manager.Errors.{ok, >>=-eq-ok, >>-eq-ok, ok_inj}
use lag_money_manager.Concurrency.{assert_fresh}
use lag_money_manager.Money.{assert_amount_precision}
use lag_money_manager.Accounts.{Account, Accounts, put}
use lag_money_manager.Accounts.Repository.{
  is_active, at_version, where_holds, count_by_user_id, counts_for, Indexes, restore, write_found,
  name_or,
}
use lag_money_manager.Accounts.Service.{
  CreateAccountDto, new_account, insert_account, assert_room_for_one_more, assert_debt_fields,
  assert_loan_not_in_credit, max_accounts_per_user, currency_or_default,
}
use lag_money_manager.Accounts.Requests.{own, restored_now, restore_account}
use lag_money_manager.Accounts.Kept.{created_put}

-- No id is listed twice.
abbrev pub IsListedOnce : List ℕ → Type 0
IsListedOnce [] = Unit
IsListedOnce (id ∷ ids) = All (λ other. (id == other) ≡ false) ids × IsListedOnce ids

elsewhere :
    (user id : ℕ) (a : Account) (accounts : Accounts) (ids : List ℕ)
    → All (λ other. (id == other) ≡ false) ids
    → count_by_user_id user ids (put id a accounts) ≡ count_by_user_id user ids accounts
unfolding count_by_user_id
elsewhere user id a accounts [] h = refl
elsewhere user id a accounts (other ∷ ids) h = rw (h.0, elsewhere user id a accounts ids h.1)

one_more :
    (user id : ℕ) (a : Account) (accounts : Accounts) (ids : List ℕ)
    → IsListedOnce ids
    → count_by_user_id user ids (put id a accounts) ≤ suc (count_by_user_id user ids accounts)
unfolding count_by_user_id
one_more user id a accounts [] h = omega arith
one_more user id a accounts (other ∷ ids) h = elim (Bool-cases (id == other)) [
  | inl e ↦
      (let rest = elsewhere user id a accounts ids (same_for other id ids e h.0) in
        let new = counts_for user (some a) in
        let old = counts_for user (accounts other) in
        rw (e, rest) (at_most new old (count_by_user_id user ids accounts)))
  | inr e ↦
      (let ih = one_more user id a accounts ids h.1 in
        rw e (
          both (counts_for user (accounts other)) (count_by_user_id user ids (put id a accounts))
            (count_by_user_id user ids accounts) ih))
]
  where
    same_for :
        (other id : ℕ) (ids : List ℕ)
        → (id == other) ≡ true
        → All (λ i. (other == i) ≡ false) ids
        → All (λ i. (id == i) ≡ false) ids
    same_for other id [] e h = tt
    same_for other id (i ∷ ids) e h = (ground arith, same_for other id ids e h.1)

    at_most : (new old : Bool) (n : ℕ) → (if new then suc n else n) ≤ suc (if old then suc n else n)
    at_most new old n = ground arith

    both :
        (b : Bool) (m n : ℕ) → m ≤ suc n → (if b then suc m else m) ≤ suc (if b then suc n else n)
    both b m n h = ground arith

has_room : (count : ℕ) → assert_room_for_one_more count ≡ ok tt → suc count ≤ max_accounts_per_user
has_room count h = elim (Bool-cases (leb max_accounts_per_user count)) [
  | inl e ↦ (let k = rw e at h in cc)
  | inr e ↦ ground arith
]

-- A user who creates an account has at most a hundred active ones after it, when nothing else is written meanwhile.
pub insert_account-limit :
    (refuses : Indexes) (currency_of : ℕ → Option String) (ids : List ℕ) (now new_id : ℕ)
    (dto : CreateAccountDto) (accounts : Accounts) {a : Account} {after : Accounts}
    → IsListedOnce ids
    → insert_account refuses currency_of ids now new_id dto (λ s. s) accounts ≡ ok (a, after)
    → count_by_user_id dto.user_id ids after ≤ max_accounts_per_user
unfolding insert_account
insert_account-limit refuses currency_of ids now new_id dto accounts once h =
    let count = count_by_user_id dto.user_id ids accounts in
    let currency = currency_or_default (currency_of dto.user_id) in
    let row = new_account now new_id (count == 0) currency dto in
    let room = >>-eq-ok (assert_room_for_one_more count) _ h in
    let precise = >>-eq-ok (assert_amount_precision dto.balance currency) _ room.1 in
    let debt =
      >>-eq-ok
        (assert_debt_fields dto.type dto.credit_limit dto.borrowed_amount currency dto.credit_limit
          dto.borrowed_amount)
        _ precise.1 in
    let loan = >>-eq-ok (assert_loan_not_in_credit dto.type dto.balance) _ debt.1 in
    let made = created_put refuses row accounts loan.1 in
    let more = one_more dto.user_id row.id row accounts ids once in
    subst (λ s. count_by_user_id dto.user_id ids s ≤ max_accounts_per_user) made.1
      (omega (arith, more, has_room count room.0))

restored_count :
    (user_id id : ℕ) (version : Option ℕ) (change : Account → Account) (found : Option Account)
    (ids : List ℕ) (accounts : Accounts) {a : Account} {after : Accounts}
    → IsListedOnce ids
    → restored_now id user_id version (write_found found change id accounts) ≡ ok (a, after)
    → count_by_user_id user_id ids after ≤ suc (count_by_user_id user_id ids accounts)
restored_count user_id id version change none ids accounts once h =
    let first = >>=-eq-ok (own user_id (accounts id)) _ h in
    let fresh = >>-eq-ok (assert_fresh first.0.updated_at version) _ first.2 in
    subst (λ s. count_by_user_id user_id ids s ≤ suc (count_by_user_id user_id ids accounts))
      (ap (λ z. z.1) (ok_inj fresh.1)) (omega arith)
restored_count user_id id version change (some b) ids accounts once h =
    subst (λ s. count_by_user_id user_id ids s ≤ suc (count_by_user_id user_id ids accounts))
      (ap (λ z. z.1) (ok_inj h)) (one_more user_id id (change b) accounts ids once)

-- A user who restores an account has at most a hundred active ones after it, if there were at most a hundred before and nothing else is written meanwhile.
pub restore_account-limit :
    (ids : List ℕ) (now id user_id : ℕ) (name : Option String) (version : Option ℕ)
    (accounts : Accounts) {a : Account} {after : Accounts}
    → IsListedOnce ids
    → count_by_user_id user_id ids accounts ≤ max_accounts_per_user
    → restore_account ids now id user_id name version (λ s. s) accounts ≡ ok (a, after)
    → count_by_user_id user_id ids after ≤ max_accounts_per_user
unfolding restore_account restore
restore_account-limit ids now id user_id name version accounts once before h =
    let first = >>=-eq-ok (own user_id (accounts id)) _ h in
    let fresh = >>-eq-ok (assert_fresh first.0.updated_at version) _ first.2 in
    let count = count_by_user_id user_id ids accounts in
    elim (Bool-cases (is_active first.0)) [
      | inl e ↦
          subst (λ s. count_by_user_id user_id ids s ≤ max_accounts_per_user)
            (ap (λ z. z.1) (ok_inj (rw e at fresh.1))) before
      | inr e ↦
          (let k = rw e at fresh.1 in
            let last = >>-eq-ok (assert_room_for_one_more count) _ k in
            let more =
              restored_count user_id id version
                (λ b. record b {
                  archived_at = none;
                  is_default = false;
                  name = name_or name b.name;
                  updated_at = some now;
                })
                (where_holds
                  (λ b. (b.user_id == user_id) && not (is_active b) && at_version version b)
                  (accounts id))
                ids accounts once last.1 in
            omega (arith, more, has_room count last.0))
    ]
