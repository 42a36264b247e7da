-- ===== src/Accounts/Patched.antt =====
-- What `updateAccount` of src/app/services/AccountService.ts judges, and the row that it writes.
use mathlib.Core.Path.{subst}
use lag_money_manager.Prelude.{
  ℕ, Bool, true, false, not, ◌||◌, ◌≡◌, refl, sym, Option, none, some, is_some, or_default, arith,
}
use lag_money_manager.Prelude.Int.{ℤ}
use lag_money_manager.Errors.{ok, >>-eq-ok}
use lag_money_manager.Accounts.{Account, AccountType, has_credit_limit, has_borrowed_amount}
use lag_money_manager.Accounts.Repository.{is_active}
use lag_money_manager.Accounts.Service
use lag_money_manager.Accounts.Service.{
  assert_loan_not_in_credit, assert_debt_fields, UpdateAccountDto, currency_or_default, missing,
  patched, update_account, update_existing, guard_of, leans, assert_patch, after_write, stamp_found,
  sent_amount, other_id,
}
use lag_money_manager.Accounts.Sound.{is_sound, debt_fields_allowed, loan_passed, is_allowed}

judged_credit :
    (allowed : Bool) (type_sent : Bool) (sent : Option (Option ℤ)) (stored : Option ℤ)
    → ((type_sent ≡ false) → is_allowed allowed stored ≡ true)
    → is_allowed allowed (Service.judged type_sent sent stored) ≡ true
    → is_allowed allowed (after_write sent stored) ≡ true
judged_credit allowed true none stored was h = h
judged_credit allowed false none stored was h = was refl
judged_credit allowed type_sent (some sent) stored was h = h

untouched_type :
    (type : Option AccountType) (old : AccountType)
    → is_some type ≡ false
    → or_default type old ≡ old
untouched_type none old h = refl
untouched_type (some t) old h = cc

-- The row that was judged stays sound under the patch that was judged.
pub patched-is_sound :
    (now : ℕ) (dto : UpdateAccountDto) (a : Account)
    → is_sound a ≡ true
    → assert_patch dto a ≡ ok tt
    → is_sound (patched now dto a) ≡ true
patched-is_sound now dto a sound h =
    let type = or_default dto.type a.type in
    let type_sent = is_some dto.type in
    let checks =
      >>-eq-ok
        (assert_debt_fields type (Service.judged type_sent dto.credit_limit a.credit_limit)
          (Service.judged type_sent dto.borrowed_amount a.borrowed_amount)
          (currency_or_default a.currency) (sent_amount dto.credit_limit)
          (sent_amount dto.borrowed_amount))
        (assert_loan_not_in_credit type a.balance) h in
    let fields =
      debt_fields_allowed type (Service.judged type_sent dto.credit_limit a.credit_limit)
        (Service.judged type_sent dto.borrowed_amount a.borrowed_amount)
        (currency_or_default a.currency) (sent_amount dto.credit_limit)
        (sent_amount dto.borrowed_amount) checks.0 in
    let was_credit : is_allowed (has_credit_limit a.type) a.credit_limit ≡ true = ground arith in
    let was_borrowed : is_allowed (has_borrowed_amount a.type) a.borrowed_amount ≡ true =
      ground arith in
    let credit =
      judged_credit (has_credit_limit type) type_sent dto.credit_limit a.credit_limit
        (λ u.
          subst (λ t. is_allowed (has_credit_limit t) a.credit_limit ≡ true)
            (sym (untouched_type dto.type a.type u)) was_credit)
        fields.0 in
    let borrowed =
      judged_credit (has_borrowed_amount type) type_sent dto.borrowed_amount a.borrowed_amount
        (λ u.
          subst (λ t. is_allowed (has_borrowed_amount t) a.borrowed_amount ≡ true)
            (sym (untouched_type dto.type a.type u)) was_borrowed)
        fields.1 in
    let owed = loan_passed type a.balance checks.1 in
    let flag : (not a.is_default || is_active a) ≡ true = ground arith in
    rw (flag, credit, borrowed, owed)

-- A patch that touches neither the type nor a field of debt keeps a sound row sound.
pub renamed-is_sound :
    (now : ℕ) (dto : UpdateAccountDto) (b : Account)
    → leans dto ≡ false
    → is_sound b ≡ true
    → is_sound (patched now dto b) ≡ true
renamed-is_sound now dto b h sound = by_type dto.type dto.credit_limit dto.borrowed_amount h
  where
    by_type :
        (type : Option AccountType) (credit borrowed : Option (Option ℤ))
        → (is_some type || is_some credit || is_some borrowed) ≡ false
        → is_sound (record b {
          type = or_default type b.type;
          credit_limit = after_write credit b.credit_limit;
          borrowed_amount = after_write borrowed b.borrowed_amount;
        })
          ≡ true
    by_type none none none h = sound
    by_type none none (some x) h = cc
    by_type none (some x) borrowed h = cc
    by_type (some t) credit borrowed h = cc
