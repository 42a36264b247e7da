-- ===== src/Accounts/Kept.antt =====
-- The requests of src/app/services/AccountService.ts against what the collection always holds.
use mathlib.Core.Path.{subst}
use Prim.Native.String.{String}
use lag_money_manager.Prelude.{
  ℕ, Bool, true, false, ◌&&◌, ◌≡◌, refl, ap, sym, Option, none, some, is_some, List, ◌==◌,
  Bool-cases, inl, inr, arith,
}
use lag_money_manager.Errors.{ok, >>-eq-ok, ok_inj}
use lag_money_manager.Money.{assert_amount_precision}
use lag_money_manager.Accounts.{Account, Accounts, put}
use lag_money_manager.Accounts.Repository.{
  is_active, Indexes, create, unset, flagged, count_by_user_id,
}
use lag_money_manager.Accounts.Service.{
  assert_loan_not_in_credit, assert_debt_fields, insert_account, new_account, CreateAccountDto,
  currency_or_default, assert_room_for_one_more,
}
use lag_money_manager.Accounts.Sound.{
  is_sound, IsSound, IsWellFormed, is_default_of, AllSound-put, OneDefault-put, debt_fields_allowed,
  loan_passed,
}

-- What the unique index of default accounts promises: a row that is not archived, and that it takes as
-- the default of a user, has no rival among the rows that are not archived.
abbrev pub RefusesRivals : Indexes → Type 0
RefusesRivals refuses =
    (accounts : Accounts) (a b : Account) (i : ℕ)
    → refuses accounts a ≡ false
    → a.is_default ≡ true
    → is_active a ≡ true
    → accounts i ≡ some b
    → is_active b ≡ true
    → (b.user_id == a.user_id) && b.is_default ≡ true
    → a.id ≡ i

pub created_put :
    (refuses : Indexes) (a : Account) (accounts : Accounts) {b : Account} {after : Accounts}
    → create refuses a accounts ≡ ok (b, after)
    → (refuses accounts a ≡ false) × (put a.id a accounts ≡ after)
unfolding create
created_put refuses a accounts h = elim (Bool-cases (is_some (accounts a.id))) [
  | inl e ↦ (let k = rw e at h in let f : ⊥ = cc in absurd f)
  | inr e ↦ elim (Bool-cases (refuses accounts a)) [
    | inl r ↦ (let k = rw (e, r) at h in let f : ⊥ = cc in absurd f)
    | inr r ↦ (r, ap (λ z. z.1) (ok_inj (rw (e, r) at h)))
  ]
]

-- A default account found in a sound collection is active.
default_found :
    (user : ℕ) (found : Option Account)
    → IsSound found
    → is_default_of user found ≡ true
    → (b : Account) × (found ≡ some b)
      × (is_active b ≡ true)
      × ((b.user_id == user) && b.is_default ≡ true)
default_found user none s h = let f : ⊥ = cc in absurd f
default_found user (some b) s h = (b, refl, ground arith, h)

new_account-is_sound :
    (now new_id : ℕ) (flag : Bool) (currency : Option String) (dto : CreateAccountDto)
    → assert_debt_fields dto.type dto.credit_limit dto.borrowed_amount currency dto.credit_limit
        dto.borrowed_amount
      ≡ ok tt
    → assert_loan_not_in_credit dto.type dto.balance ≡ ok tt
    → is_sound (new_account now new_id flag currency dto) ≡ true
new_account-is_sound now new_id flag currency dto debt loan =
    let fields =
      debt_fields_allowed dto.type dto.credit_limit dto.borrowed_amount currency dto.credit_limit
        dto.borrowed_amount debt in
    let no_credit = loan_passed dto.type dto.balance loan in
    elim (Bool-cases flag) [
      | inl e ↦ rw (e, fields.0, fields.1, no_credit)
      | inr e ↦ rw (e, fields.0, fields.1, no_credit)
    ]

create-IsWellFormed :
    (refuses : Indexes) (law : RefusesRivals refuses) (a : Account) (accounts : Accounts)
    → is_sound a ≡ true
    → refuses accounts a ≡ false
    → IsWellFormed accounts
    → IsWellFormed (put a.id a accounts)
create-IsWellFormed refuses law a accounts sound taken h = (
  AllSound-put a.id a accounts sound h.0,
  OneDefault-put a.id a accounts
      (λ user j d k.
        let owner : a.user_id ≡ user = ground arith in
        let flag : a.is_default ≡ true = ground arith in
        let active : is_active a ≡ true = ground arith in
        let rival = default_found user (accounts j) (h.0 j) k in
        law accounts a rival.0 j taken flag active rival.1 rival.2
          (subst (λ u. (rival.0.user_id == u) && rival.0.is_default ≡ true) (sym owner) rival.3))
      h.1,
)

-- An account that is created leaves the collection well formed.
pub insert-IsWellFormed :
    (refuses : Indexes) (currency_of : ℕ → Option String) (ids : List ℕ) (now new_id : ℕ)
    (dto : CreateAccountDto) (others : Accounts → Accounts) (accounts : Accounts) {a : Account}
    {after : Accounts}
    → RefusesRivals refuses
    → insert_account refuses currency_of ids now new_id dto others accounts ≡ ok (a, after)
    → IsWellFormed (others accounts)
    → IsWellFormed after
unfolding insert_account
insert-IsWellFormed refuses currency_of ids now new_id dto others accounts law h wf =
    let count = count_by_user_id dto.user_id ids accounts in
    let currency = currency_or_default (currency_of dto.user_id) in
    let row = new_account now new_id (count == 0) currency dto in
    let room = >>-eq-ok (assert_room_for_one_more count) _ h in
    let precise = >>-eq-ok (assert_amount_precision dto.balance currency) _ room.1 in
    let debt =
      >>-eq-ok
        (assert_debt_fields dto.type dto.credit_limit dto.borrowed_amount currency dto.credit_limit
          dto.borrowed_amount)
        _ precise.1 in
    let loan = >>-eq-ok (assert_loan_not_in_credit dto.type dto.balance) _ debt.1 in
    let made = created_put refuses row (others accounts) loan.1 in
    let sound = new_account-is_sound now new_id (count == 0) currency dto debt.0 loan.0 in
    subst IsWellFormed made.1
      (create-IsWellFormed refuses law row (others accounts) sound made.0 wf)

pub set_found-IsWellFormed :
    (now id user_id : ℕ) (a : Account) (accounts : Accounts)
    → (a.user_id == user_id) ≡ true
    → is_active a ≡ true
    → is_sound a ≡ true
    → IsWellFormed accounts
    → IsWellFormed (put id (flagged now a) (λ i. unset now user_id (accounts i)))
set_found-IsWellFormed now id user_id a accounts owner active sound h = (
  AllSound-put id (flagged now a) (λ i. unset now user_id (accounts i))
      (flagged_sound a active sound) (λ i. unset_sound (accounts i) (h.0 i)),
  OneDefault-put id (flagged now a) (λ i. unset now user_id (accounts i))
      (λ user j d k. let f = none_left user (accounts j) (ground arith) k in absurd f)
      (λ user i j d k.
        h.1 user i j (was_default user (accounts i) d) (was_default user (accounts j) k)),
)
  where
    flagged_sound :
        (b : Account) → is_active b ≡ true → is_sound b ≡ true → is_sound (flagged now b) ≡ true
    flagged_sound b act s = ground arith

    unset_sound : (found : Option Account) → IsSound found → IsSound (unset now user_id found)
    unset_sound none s = tt
    unset_sound (some b) s = elim (Bool-cases ((b.user_id == user_id) && b.is_default)) [
      | inl e ↦ rw e (ground arith)
      | inr e ↦ rw e s
    ]

    was_default :
        (user : ℕ) (found : Option Account)
        → is_default_of user (unset now user_id found) ≡ true
        → is_default_of user found ≡ true
    was_default user none d = d
    was_default user (some b) d = elim (Bool-cases ((b.user_id == user_id) && b.is_default)) [
      | inl e ↦ (let k = rw e at d in let f : ⊥ = ground arith in absurd f)
      | inr e ↦ rw e at d
    ]

    none_left :
        (user : ℕ) (found : Option Account)
        → user_id ≡ user
        → is_default_of user (unset now user_id found) ≡ true
        → ⊥
    none_left user none same d = cc
    none_left user (some b) same d = elim (Bool-cases ((b.user_id == user_id) && b.is_default)) [
      | inl e ↦ (let k = rw e at d in ground arith)
      | inr e ↦
          (let k = rw e at d in
            let k' = subst (λ u. (b.user_id == u) && b.is_default ≡ true) (sym same) k in cc)
    ]
