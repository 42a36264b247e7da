-- ===== src/Accounts/Sound.antt =====
-- What every account of the collection is, whatever src/app/services/AccountService.ts is asked.
use mathlib.Core.Path.{subst}
use Prim.Native.String.{String}
use lag_money_manager.Prelude.{
  ℕ, Bool, true, false, not, ◌&&◌, ◌||◌, ◌≡◌, refl, sym, ◌∙◌, Option, none, some, ◌==◌, ==_iff,
  Bool-cases, inl, inr, arith,
}
use lag_money_manager.Prelude.Int.{ℤ, pos, ltb_ℤ}
use lag_money_manager.Errors.{ok, both_passed}
use lag_money_manager.Accounts.{
  Account, Accounts, AccountType, is_loan, has_credit_limit, has_borrowed_amount, put,
}
use lag_money_manager.Accounts.Repository.{is_active, where_holds}
use lag_money_manager.Accounts.Service.{
  assert_loan_not_in_credit, assert_debt_fields, assert_debt_field,
}

-- A field of debt is there only on the types that have it.
abbrev pub is_allowed : Bool → Option ℤ → Bool
is_allowed allowed none = true
is_allowed allowed (some amount) = allowed

-- The default account is not archived, the fields of debt are those of the type, and a loan holds no money.
abbrev pub is_sound : Account → Bool
is_sound a =
    (not a.is_default || is_active a)
    && is_allowed (has_credit_limit a.type) a.credit_limit
    && is_allowed (has_borrowed_amount a.type) a.borrowed_amount
    && not (is_loan a.type && ltb_ℤ (pos 0) a.balance)

abbrev pub IsSound : Option Account → Type 0
IsSound none = Unit
IsSound (some a) = is_sound a ≡ true

abbrev pub AllSound : Accounts → Type 0
AllSound accounts = (i : ℕ) → IsSound (accounts i)

pub AllSound-put :
    (id : ℕ) (a : Account) (accounts : Accounts)
    → is_sound a ≡ true
    → AllSound accounts
    → AllSound (put id a accounts)
AllSound-put id a accounts h all i = elim (Bool-cases (id == i)) [
  | inl e ↦ rw e h
  | inr e ↦ rw e (all i)
]

-- A user has at most one default account.
abbrev pub is_default_of : ℕ → Option Account → Bool
is_default_of user_id none = false
is_default_of user_id (some a) = (a.user_id == user_id) && a.is_default

abbrev pub OneDefault : Accounts → Type 0
OneDefault accounts =
    (user i j : ℕ)
    → is_default_of user (accounts i) ≡ true
    → is_default_of user (accounts j) ≡ true
    → i ≡ j

abbrev pub IsWellFormed : Accounts → Type 0
IsWellFormed accounts = AllSound accounts × OneDefault accounts

debt_allowed :
    (allowed : Bool) (amount written : Option ℤ) (currency : Option String)
    → assert_debt_field allowed amount written currency ≡ ok tt
    → is_allowed allowed amount ≡ true
debt_allowed allowed none written currency h = refl
debt_allowed true (some amount) written currency h = refl
debt_allowed false (some amount) written currency h = cc

pub debt_fields_allowed :
    (type : AccountType) (credit borrowed : Option ℤ) (currency : Option String)
    (credit_sent borrowed_sent : Option ℤ)
    → assert_debt_fields type credit borrowed currency credit_sent borrowed_sent ≡ ok tt
    → (is_allowed (has_credit_limit type) credit ≡ true)
      × (is_allowed (has_borrowed_amount type) borrowed ≡ true)
unfolding assert_debt_fields
debt_fields_allowed type credit borrowed currency credit_sent borrowed_sent h =
    let both =
      (both_passed (assert_debt_field (has_credit_limit type) credit credit_sent currency)
          (assert_debt_field (has_borrowed_amount type) borrowed borrowed_sent currency)).0
        h in
    (
      debt_allowed (has_credit_limit type) credit credit_sent currency both.0,
      debt_allowed (has_borrowed_amount type) borrowed borrowed_sent currency both.1,
    )

pub loan_passed :
    (type : AccountType) (balance : ℤ)
    → assert_loan_not_in_credit type balance ≡ ok tt
    → (is_loan type && ltb_ℤ (pos 0) balance) ≡ false
loan_passed type balance h = elim (Bool-cases (is_loan type && ltb_ℤ (pos 0) balance)) [
  | inl e ↦ (let k = rw e at h in cc)
  | inr e ↦ e
]

pub OneDefault-put :
    (id : ℕ) (a : Account) (accounts : Accounts)
    → ((user j : ℕ)
        → is_default_of user (some a) ≡ true
        → is_default_of user (accounts j) ≡ true
        → id ≡ j)
    → OneDefault accounts
    → OneDefault (put id a accounts)
OneDefault-put id a accounts only one user i j h k = elim (Bool-cases (id == i)) [
  | inl e ↦ elim (Bool-cases (id == j)) [
    | inl f ↦ sym ((==_iff id i).0 e) ∙ (==_iff id j).0 f
    | inr f ↦ sym ((==_iff id i).0 e) ∙ only user j (rw e at h) (rw f at k)
  ]
  | inr e ↦ elim (Bool-cases (id == j)) [
    | inl f ↦ sym (only user i (rw f at k) (rw e at h)) ∙ (==_iff id j).0 f
    | inr f ↦ one user i j (rw e at h) (rw f at k)
  ]
]

-- A row that is not a default one is no rival.
pub no_default :
    (a : Account) (id user j : ℕ) (found : Option Account)
    → a.is_default ≡ false
    → is_default_of user (some a) ≡ true
    → is_default_of user found ≡ true
    → id ≡ j
no_default a id user j found flag h k = let f : ⊥ = ground arith in absurd f

-- A write of a row that stays sound and is not a default one.
pub IsWellFormed-put :
    (id : ℕ) (a : Account) (accounts : Accounts)
    → is_sound a ≡ true
    → a.is_default ≡ false
    → IsWellFormed accounts
    → IsWellFormed (put id a accounts)
IsWellFormed-put id a accounts sound flag h = (
  AllSound-put id a accounts sound h.0,
  OneDefault-put id a accounts (λ user j d k. no_default a id user j (accounts j) flag d k) h.1,
)

some_inj : {a b : Account} → some a ≡ some b → a ≡ b
some_inj h = cc

-- What was found by a filter.
pub where_found :
    (p : Account → Bool) (found : Option Account) {a : Account}
    → where_holds p found ≡ some a
    → (found ≡ some a) × (p a ≡ true)
where_found p none h = cc
where_found p (some b) h = elim (Bool-cases (p b)) [
  | inl e ↦ (let k = rw e at h in let same = some_inj k in (k, subst (λ c. p c ≡ true) same e))
  | inr e ↦ (let k = rw e at h in let f : ⊥ = cc in absurd f)
]
