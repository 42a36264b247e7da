-- ===== src/Accounts/Tests.antt =====
-- A user with a default account and a card, and requests on them.
use Prim.Native.String.{String}
use mathlib.Core.Path.{subst}
use lag_money_manager.Prelude.{
  ℕ, ◌≤◌, true, false, ◌≡◌, refl, sym, ◌∙◌, ◌⊎◌, Option, none, some, [], ◌∷◌, ◌==◌, if◌then◌else◌,
  arith, Bool-cases, inl, inr, is_some,
}
use lag_money_manager.Prelude.Int.{pos}
use lag_money_manager.Errors.{ok}
use lag_money_manager.Concurrency.{assert_fresh, same_version}
use lag_money_manager.Money.{assert_amount_precision, has_valid_precision, currency_decimals}
use lag_money_manager.Accounts.{Account, Accounts, cash, card, put}
use lag_money_manager.Accounts.Repository.{
  archive_non_default, restore, Indexes, create, count_by_user_id,
}
use lag_money_manager.Accounts.Service.{
  CreateAccountDto, insert_account, assert_debt_fields, max_accounts_per_user,
}
use lag_money_manager.Accounts.Requests.{delete_account, restore_account}
use lag_money_manager.Accounts.Sound.{IsWellFormed, is_default_of}
use lag_money_manager.Accounts.Kept.{RefusesRivals}
use lag_money_manager.Accounts.Edited.{AllStamped, StampsAnew}
use lag_money_manager.Accounts.Served.{archives, serve, serve-IsWellFormed}
use lag_money_manager.Accounts.Room.{insert_account-limit, restore_account-limit}
use lag_money_manager.Accounts.Archive.{IsArchived, delete_account-twice}

abbrev wallet : Account
wallet = record {
  id = 1;
  name = "Wallet";
  type = cash;
  balance = pos 5000;
  opening_balance = pos 0;
  color = none;
  credit_limit = none;
  borrowed_amount = none;
  user_id = 7;
  is_default = true;
  currency = some "USD";
  archived_at = none;
  updated_at = some 100;
}

abbrev visa : Account
visa = record wallet {
  id = 2;
  name = "Visa";
  type = card;
  credit_limit = some (pos 90000);
  is_default = false;
}

abbrev stored : Accounts
stored i = if i == 1 then some wallet else if i == 2 then some visa else none

-- An index that takes no second default account at all.
abbrev strict_index : Indexes
strict_index accounts a = a.is_default

abbrev currency_of : ℕ → Option String
currency_of user = some "USD"

strict_index-RefusesRivals : RefusesRivals strict_index
strict_index-RefusesRivals accounts a b i taken flag mine found active rival =
    let f : ⊥ = cc in absurd f

two_rows : (i : ℕ) (a : Account) → stored i ≡ some a → (wallet ≡ a) ⊎ (visa ≡ a)
two_rows i a h = elim (Bool-cases (i == 1)) [
  | inl e ↦ (let k = rw e at h in inl (the_same k))
  | inr e ↦ elim (Bool-cases (i == 2)) [
    | inl f ↦ (let k = rw (e, f) at h in inr (the_same k))
    | inr f ↦ (let k = rw (e, f) at h in let g : ⊥ = cc in absurd g)
  ]
]
  where
    the_same : {a b : Account} → some a ≡ some b → a ≡ b
    the_same h = cc

only_wallet : (user i : ℕ) → is_default_of user (stored i) ≡ true → i ≡ 1
only_wallet user i h = elim (Bool-cases (i == 1)) [
  | inl e ↦ ground arith
  | inr e ↦ elim (Bool-cases (i == 2)) [
    | inl f ↦ (let k = rw (e, f) at h in let g : ⊥ = ground arith in absurd g)
    | inr f ↦ (let k = rw (e, f) at h in let g : ⊥ = cc in absurd g)
  ]
]

stored-IsWellFormed : IsWellFormed stored
stored-IsWellFormed = (
  λ i. elim (Bool-cases (i == 1)) [
    | inl e ↦ rw e refl
    | inr e ↦ elim (Bool-cases (i == 2)) [ inl f ↦ rw (e, f) refl | inr f ↦ rw (e, f) tt ]
  ],
  λ user i j h k. only_wallet user i h ∙ sym (only_wallet user j k),
)

stored-AllStamped : AllStamped stored
stored-AllStamped i a h = elim (two_rows i a h) [
  | inl e ↦ subst (λ b. is_some b.updated_at ≡ true) e refl
  | inr e ↦ subst (λ b. is_some b.updated_at ≡ true) e refl
]

stored-StampsAnew : StampsAnew (λ s. s) stored
stored-StampsAnew i a b h k same = the_same (sym h ∙ k)
  where
    the_same : {a b : Account} → some a ≡ some b → a ≡ b
    the_same h = cc

abbrev visa_archived : Account
visa_archived = record visa { archived_at = some 200; updated_at = some 200 }

archived_visa :
    delete_account 200 2 7 (some 100) (λ s. s) stored
    ≡ ok (visa_archived, put 2 visa_archived stored)
unfolding delete_account archive_non_default assert_fresh same_version
archived_visa = refl

served_archive :
    serve strict_index currency_of (1 ∷ 2 ∷ []) 200 (archives 2 7 (some 100)) (λ s. s) stored
    ≡ ok (visa_archived, put 2 visa_archived stored)
unfolding serve
served_archive = archived_visa

serve-IsWellFormed_example : IsWellFormed (put 2 visa_archived stored)
serve-IsWellFormed_example =
    serve-IsWellFormed strict_index currency_of (1 ∷ 2 ∷ []) 200 (archives 2 7 (some 100)) (λ s. s)
      stored strict_index-RefusesRivals stored-IsWellFormed stored-IsWellFormed stored-AllStamped
      stored-StampsAnew served_archive

delete_account-twice_example :
    IsArchived 2 7 (visa_archived, put 2 visa_archived stored)
    × (delete_account 300 2 7 none (λ s. s) (put 2 visa_archived stored)
        ≡ ok (visa_archived, put 2 visa_archived stored))
delete_account-twice_example =
    delete_account-twice 200 300 2 7 (some 100) (λ s. s) stored
      (visa_archived, put 2 visa_archived stored) archived_visa

abbrev visa_back : Account
visa_back = record visa { updated_at = some 300 }

abbrev with_archive : Accounts
with_archive = put 2 visa_archived stored

visa_restored :
    restore_account (1 ∷ 2 ∷ []) 300 2 7 none none (λ s. s) with_archive
    ≡ ok (visa_back, put 2 visa_back with_archive)
unfolding restore_account restore assert_fresh count_by_user_id
visa_restored = refl

one_counted : count_by_user_id 7 (1 ∷ 2 ∷ []) with_archive ≤ max_accounts_per_user
unfolding count_by_user_id
one_counted = omega arith

restore_account-limit_example :
    count_by_user_id 7 (1 ∷ 2 ∷ []) (put 2 visa_back with_archive) ≤ max_accounts_per_user
restore_account-limit_example =
    restore_account-limit (1 ∷ 2 ∷ []) 300 2 7 none none with_archive ((refl, tt), (tt, tt))
      one_counted visa_restored

abbrev savings_dto : CreateAccountDto
savings_dto = record {
  id = some 3;
  name = "Savings";
  type = cash;
  balance = pos 100;
  color = none;
  credit_limit = none;
  borrowed_amount = none;
  user_id = 7;
}

abbrev savings_row : Account
savings_row = record wallet {
  id = 3;
  name = "Savings";
  balance = pos 100;
  opening_balance = pos 100;
  is_default = false;
  updated_at = some 400;
}

savings_made :
    insert_account strict_index currency_of (1 ∷ 2 ∷ 3 ∷ []) 400 9 savings_dto (λ s. s) stored
    ≡ ok (savings_row, put 3 savings_row stored)
unfolding insert_account count_by_user_id assert_amount_precision has_valid_precision
    currency_decimals assert_debt_fields create
savings_made = refl

insert_account-limit_example :
    count_by_user_id 7 (1 ∷ 2 ∷ 3 ∷ []) (put 3 savings_row stored) ≤ max_accounts_per_user
insert_account-limit_example =
    insert_account-limit strict_index currency_of (1 ∷ 2 ∷ 3 ∷ []) 400 9 savings_dto stored
      ((refl, (refl, tt)), ((refl, tt), (tt, tt))) savings_made
