-- ===== src/Transactions/Balances/Effect.antt =====
-- The steps of `moveBalances` of src/app/services/TransactionService.ts (`incrementAccount` and the
-- loop over the net), and the rows of the accounts before and after them.
use mathlib.Core.Path.{subst}
use lag_money_manager.Prelude.{
  ℕ, Bool, true, false, ◌≡◌, refl, ap, sym, Option, none, some, List, [], ◌∷◌, ◌==◌, ==_iff,
  Bool-cases, inl, inr, if◌then◌else◌, arith,
}
use lag_money_manager.Prelude.Int.{ℤ, pos, ◌+ℤ◌, ◌-ℤ◌, int_laws, leb_ℤ, +ℤ_assoc, +ℤ_zero}
use lag_money_manager.Errors.{ok, >>=-eq-ok, ok_inj}
use lag_money_manager.Accounts.{Account, Accounts, put, is_loan}
use lag_money_manager.Accounts.Repository.{
  increment_balance, increment_balance_capped, Capped, applied, over, increment_found, incremented,
  cap_found,
}
use lag_money_manager.Transactions.Journal.{Entity, Journal, note}
use lag_money_manager.Transactions.Balances.{
  Books, add_net, apply_net, increment_account, increment_target, change_balance, credit_loan,
  is_zero, noted_increment, capped_result,
}

-- The row of an account before and after: no row comes or goes, and nothing but the balance and the
-- stamp is another.
abbrev pub Moved : ℤ → Option Account → Option Account → Type 0
Moved cents none none = cents ≡ pos 0
Moved cents (some a) (some b) =
    b ≡ record a { balance = a.balance +ℤ cents; updated_at = b.updated_at }
Moved cents _ _ = ⊥

-- An amount at one id.
abbrev pub at_id : ℕ → ℤ → ℕ → ℤ
at_id id cents i = if id == i then cents else pos 0

-- The sum of what a list of changes has for an account.
unfoldable pub total_at : List (ℕ × ℤ) → ℕ → ℤ
total_at [] i = pos 0
total_at ((id, cents) ∷ net) i = at_id id cents i +ℤ total_at net i

pub total-add_net :
    (id : ℕ) (cents : ℤ) (net : List (ℕ × ℤ)) (i : ℕ)
    → total_at (add_net id cents net) i ≡ total_at net i +ℤ at_id id cents i
unfolding total_at add_net
total-add_net id cents [] i = grind int_laws
total-add_net id cents ((other, sum) ∷ net) i =
    let ih = total-add_net id cents net i in grind (int_laws, ih)

pub Moved-zero : (o : Option Account) → Moved (pos 0) o o
Moved-zero none = refl
Moved-zero (some a) = grind (arith, +ℤ_zero)

pub Moved-trans :
    (c d : ℤ) (o p q : Option Account) → Moved c o p → Moved d p q → Moved (c +ℤ d) o q
Moved-trans c d none none none h k = grind (int_laws, h, k)
Moved-trans c d (some a) (some b) (some e) h k = grind (arith, +ℤ_assoc, h, k)
Moved-trans c d none (some b) q h k = absurd h
Moved-trans c d (some a) none q h k = absurd h
Moved-trans c d (some a) (some b) none h k = absurd k
Moved-trans c d none none (some e) h k = absurd k

Moved-if :
    (b : Bool) (now : ℕ) (cents : ℤ) (o : Option Account) (a : Account)
    → (b ≡ true → o ≡ some a)
    → Moved (if b then cents else pos 0) o (if b then some (incremented now cents a) else o)
Moved-if true now cents o a h =
    subst (λ r. Moved cents r (some (incremented now cents a))) (sym (h refl)) refl
Moved-if false now cents o a h = Moved-zero o

Moved-put :
    (now id i : ℕ) (cents : ℤ) (accounts : Accounts) (a : Account)
    → accounts id ≡ some a
    → Moved (at_id id cents i) (accounts i) (put id (incremented now cents a) accounts i)
Moved-put now id i cents accounts a h =
    Moved-if (id == i) now cents (accounts i) a
      (λ e. subst (λ j. accounts j ≡ some a) ((==_iff id i).0 e) h)

change_found :
    (now id i : ℕ) (cents : ℤ) (books : Books) (o : Option Account) {after : Books}
    → books.accounts id ≡ o
    → noted_increment id (increment_found now id cents o books.accounts) books ≡ ok after
    → Moved (at_id id cents i) (books.accounts i) (after.accounts i)
change_found now id i cents books none e h = cc
change_found now id i cents books (some a) e h =
    let (noted, k, q) = >>=-eq-ok (note Entity.account id a.updated_at books.journal) _ h in
    subst (λ (r : Books). Moved (at_id id cents i) (books.accounts i) (r.accounts i)) (ok_inj q)
      (Moved-put now id i cents books.accounts a e)

change_balance_moves :
    (now id i : ℕ) (cents : ℤ) (books : Books) {after : Books}
    → change_balance now id cents books ≡ ok after
    → Moved (at_id id cents i) (books.accounts i) (after.accounts i)
unfolding change_balance increment_balance
change_balance_moves now id i cents books h =
    change_found now id i cents books (books.accounts id) refl h

-- A credit that is let through passed its test.
pub cap_passed :
    (b : Bool) (s s0 : Accounts) (noted : Journal) {after : Books}
    → (let r : Capped × Accounts = if b then (applied, s) else (over, s0) in
        capped_result r.0 (record { accounts = r.1; journal = noted }) ≡ ok after)
    → (b ≡ true) × (s ≡ after.accounts)
cap_passed true s s0 noted h = (refl, ap (λ (r : Books). r.accounts) (ok_inj h))
cap_passed false s s0 noted h = cc

cap_moves :
    (now id i : ℕ) (cents : ℤ) (accounts : Accounts) (noted : Journal) (o : Option Account)
    {after : Books}
    → accounts id ≡ o
    → (let r = cap_found now id cents (pos 0) o accounts in
        capped_result r.0 (record { accounts = r.1; journal = noted }) ≡ ok after)
    → Moved (at_id id cents i) (accounts i) (after.accounts i)
cap_moves now id i cents accounts noted none e h = cc
cap_moves now id i cents accounts noted (some a) e h =
    subst (λ (r : Accounts). Moved (at_id id cents i) (accounts i) (r i))
      (cap_passed (leb_ℤ a.balance (pos 0 -ℤ cents)) (put id (incremented now cents a) accounts)
        accounts noted h).1
      (Moved-put now id i cents accounts a e)

credit_loan_moves :
    (now id i : ℕ) (cents : ℤ) (target : Account) (books : Books) {after : Books}
    → credit_loan now id cents target books ≡ ok after
    → Moved (at_id id cents i) (books.accounts i) (after.accounts i)
unfolding credit_loan increment_balance_capped
credit_loan_moves now id i cents target books h =
    let (noted, k, q) =
      >>=-eq-ok (note Entity.account target.id target.updated_at books.journal) _ h in
    cap_moves now id i cents books.accounts noted (books.accounts id) refl q

target_moves :
    (now id i : ℕ) (cents : ℤ) (target : Option Account) (books : Books) {after : Books}
    → increment_target now id cents target books ≡ ok after
    → Moved (at_id id cents i) (books.accounts i) (after.accounts i)
target_moves now id i cents none books h = change_balance_moves now id i cents books h
target_moves now id i cents (some target) books h = elim (Bool-cases (is_loan target.type)) [
  | inl e ↦ credit_loan_moves now id i cents target books (rw e at h)
  | inr e ↦ change_balance_moves now id i cents books (rw e at h)
]

is_zero_eq : (cents : ℤ) → is_zero cents ≡ true → cents ≡ pos 0
is_zero_eq cents h = ground arith

zero_moves :
    (id i : ℕ) (cents : ℤ) (books after : Books)
    → is_zero cents ≡ true
    → books ≡ after
    → Moved (at_id id cents i) (books.accounts i) (after.accounts i)
zero_moves id i cents books after z e =
    let none_moved : pos 0 ≡ at_id id cents i = ground (arith, is_zero_eq cents z) in
    subst (λ (r : Books). Moved (at_id id cents i) (books.accounts i) (r.accounts i)) e
      (subst (λ c. Moved c (books.accounts i) (books.accounts i)) none_moved
        (Moved-zero (books.accounts i)))

pub step_moves :
    (now id i : ℕ) (cents : ℤ) (taken : Option Account) (books : Books) {after : Books}
    → (if is_zero cents then ok books else increment_account now id cents taken books) ≡ ok after
    → Moved (at_id id cents i) (books.accounts i) (after.accounts i)
unfolding increment_account
step_moves now id i cents taken books h = elim (Bool-cases (is_zero cents)) [
  | inl e ↦ zero_moves id i cents books _ e (ok_inj (rw e at h))
  | inr e ↦ target_moves now id i cents _ books (rw e at h)
]

pub apply_net_moves :
    (now : ℕ) (taken : Accounts) (net : List (ℕ × ℤ)) (books : Books) {after : Books} (i : ℕ)
    → apply_net now taken net books ≡ ok after
    → Moved (total_at net i) (books.accounts i) (after.accounts i)
unfolding apply_net total_at
apply_net_moves now taken [] books i h =
    subst (λ (r : Books). Moved (pos 0) (books.accounts i) (r.accounts i)) (ok_inj h)
      (Moved-zero (books.accounts i))
apply_net_moves now taken ((id, cents) ∷ net) books i h =
    let (next, k, q) =
      >>=-eq-ok
        (if is_zero cents then ok books else increment_account now id cents (taken id) books) _ h in
    Moved-trans (at_id id cents i) (total_at net i) _ _ _
      (step_moves now id i cents (taken id) books k) (apply_net_moves now taken net next i q)
