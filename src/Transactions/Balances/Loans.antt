-- ===== src/Transactions/Balances/Loans.antt =====
-- The steps of the cap on loans of src/app/services/TransactionService.ts (`incrementAccount`). A loan
-- is owed: its balance is zero or below.
use mathlib.Core.Path.{subst}
use lag_money_manager.Prelude.{
  ℕ, true, false, ◌≡◌, refl, sym, ap, ◌∙◌, Option, none, some, List, [], ◌∷◌, Bool-cases, inl, inr,
  arith, ◌==◌, if◌then◌else◌, ==_iff, is_some, ◌⊎◌,
}
use lag_money_manager.Prelude.Int.{
  ℤ, pos, ◌+ℤ◌, ◌-ℤ◌, ◌≤ℤ◌, leb_ℤ, ltb_ℤ, int_laws, +ℤ_parts, -ℤ_parts,
}
use lag_money_manager.Errors.{ok, >>=-eq-ok, ok_inj}
use lag_money_manager.Accounts.{Account, Accounts, is_loan, put}
use lag_money_manager.Accounts.Repository.{cap_found, increment_balance_capped, incremented}
use lag_money_manager.Transactions.Journal.{Journal, Entity, note}
use lag_money_manager.Transactions.Balances.{
  capped_result, Books, is_zero, increment_account, increment_target, or_stored, credit_loan,
  apply_net,
}
use lag_money_manager.Transactions.Balances.Effect.{Moved, at_id, step_moves, cap_passed}

-- A loan is not above zero.
abbrev pub IsOwed : Option Account → Type 0
IsOwed none = Unit
IsOwed (some a) = is_loan a.type ≡ true → a.balance ≤ℤ pos 0

-- No loan of a collection is above zero.
abbrev pub LoansOwed : Accounts → Type 0
LoansOwed accounts = (i : ℕ) → IsOwed (accounts i)

-- The account that was read is of the type that is stored.
abbrev pub Agrees : Option Account → Option Account → Type 0
Agrees none stored = Unit
Agrees (some a) none = Unit
Agrees (some a) (some b) = is_loan a.type ≡ is_loan b.type

-- A row that moves by nothing, or down, stays owed.
IsOwed-Moved : (c : ℤ) (o p : Option Account) → c ≤ℤ pos 0 → Moved c o p → IsOwed o → IsOwed p
IsOwed-Moved c none none l m h = tt
IsOwed-Moved c none (some b) l m h = absurd m
IsOwed-Moved c (some a) none l m h = absurd m
IsOwed-Moved c (some a) (some b) l m h =
    subst (λ (r : Account). IsOwed (some r)) (sym m) (λ e. let k = h e in omega (int_laws, k, l))

Agrees-Moved : (c : ℤ) (t o p : Option Account) → Moved c o p → Agrees t o → Agrees t p
Agrees-Moved c none o p m h = tt
Agrees-Moved c (some t) o none m h = tt
Agrees-Moved c (some t) none (some b) m h = absurd m
Agrees-Moved c (some t) (some a) (some b) m h = h ∙ ap (λ (r : Account). is_loan r.type) (sym m)

pub same_true : (id : ℕ) → (id == id) ≡ true
same_true id = (==_iff id id).1 refl

fits : (b c : ℤ) → leb_ℤ b (pos 0 -ℤ c) ≡ true → b +ℤ c ≤ℤ pos 0
fits b c h = ground (arith, +ℤ_parts b c, -ℤ_parts (pos 0) c)

capped-IsOwed :
    (now id : ℕ) (cents : ℤ) (accounts : Accounts) (noted : Journal) (o : Option Account)
    {after : Books}
    → (let r = cap_found now id cents (pos 0) o accounts in
        capped_result r.0 (record { accounts = r.1; journal = noted }) ≡ ok after)
    → IsOwed (after.accounts id)
capped-IsOwed now id cents accounts noted none h = cc
capped-IsOwed now id cents accounts noted (some a) h =
    let p =
      cap_passed (leb_ℤ a.balance (pos 0 -ℤ cents)) (put id (incremented now cents a) accounts)
        accounts noted h in
    let below : a.balance +ℤ cents ≤ℤ pos 0 = fits a.balance cents p.0 in
    subst (λ (r : Accounts). IsOwed (r id)) p.1
      (subst (λ b. IsOwed (if b then some (incremented now cents a) else accounts id))
        (sym (same_true id)) (λ e. below))

credit_loan-IsOwed :
    (now id : ℕ) (cents : ℤ) (target : Account) (books : Books) {after : Books}
    → credit_loan now id cents target books ≡ ok after
    → IsOwed (after.accounts id)
unfolding credit_loan increment_balance_capped
credit_loan-IsOwed now id cents target books h =
    let (noted, k, q) =
      >>=-eq-ok (note Entity.account target.id target.updated_at books.journal) _ h in
    capped-IsOwed now id cents books.accounts noted (books.accounts id) q

-- A row that was no loan is none after it moved.
unloaned :
    (c : ℤ) (a : Account) (p : Option Account)
    → is_loan a.type ≡ false
    → Moved c (some a) p
    → IsOwed p
unloaned c a none e m = tt
unloaned c a (some b) e m = subst (λ (r : Account). IsOwed (some r)) (sym m) (λ k. cc)

none-IsOwed : (c : ℤ) (p : Option Account) → Moved c none p → IsOwed p
none-IsOwed c none m = tt
none-IsOwed c (some b) m = absurd m

credit-IsOwed :
    (now id : ℕ) (cents : ℤ) (target stored : Option Account) (books : Books) {after : Books}
    → Agrees target stored
    → is_some target ≡ true
    → increment_target now id cents target books ≡ ok after
    → Moved cents stored (after.accounts id)
    → IsOwed (after.accounts id)
credit-IsOwed now id cents none stored books a s h m = cc
credit-IsOwed now id cents (some t) none books {after = after} a s h m =
    none-IsOwed cents (after.accounts id) m
credit-IsOwed now id cents (some t) (some o) books {after = after} a s h m =
    elim (Bool-cases (is_loan t.type)) [
      | inl e ↦ credit_loan-IsOwed now id cents t books (rw e at h)
      | inr e ↦ unloaned cents o (after.accounts id) (sym a ∙ e) m
    ]

-- The account a credit lands on agrees with what is stored.
Agrees-or_stored :
    (taken stored : Option Account) → Agrees taken stored → Agrees (or_stored taken stored) stored
Agrees-or_stored none none h = tt
Agrees-or_stored none (some b) h = refl
Agrees-or_stored (some a) stored h = h

-- A credit of an account that is stored or was read has a target.
found_or_not : (o : Option Account) → (o ≡ none) ⊎ (is_some o ≡ true)
found_or_not none = inl refl
found_or_not (some a) = inr refl

stored_none : (taken stored : Option Account) → or_stored taken stored ≡ none → stored ≡ none
stored_none none stored h = h
stored_none (some a) stored h = cc

own-IsOwed :
    (now id : ℕ) (cents : ℤ) (taken : Option Account) (books : Books) {after : Books}
    → Agrees taken (books.accounts id)
    → IsOwed (books.accounts id)
    → increment_account now id cents taken books ≡ ok after
    → Moved cents (books.accounts id) (after.accounts id)
    → IsOwed (after.accounts id)
unfolding increment_account
own-IsOwed now id cents taken books {after = after} a o h m =
    elim (Bool-cases (ltb_ℤ (pos 0) cents)) [
      | inl e ↦ elim (found_or_not (or_stored taken (books.accounts id))) [
        | inl n ↦
            none-IsOwed cents (after.accounts id)
              (rw (stored_none taken (books.accounts id) n) at m)
        | inr s ↦
            credit-IsOwed now id cents (or_stored taken (books.accounts id)) (books.accounts id)
              books (Agrees-or_stored taken (books.accounts id) a) s (rw e at h) m
      ]
      | inr e ↦ IsOwed-Moved cents (books.accounts id) (after.accounts id) (ground arith) m o
    ]

LoansOwed-step :
    (now id : ℕ) (cents : ℤ) (taken : Option Account) (books : Books) {after : Books}
    → Agrees taken (books.accounts id)
    → LoansOwed books.accounts
    → (if is_zero cents then ok books else increment_account now id cents taken books) ≡ ok after
    → LoansOwed after.accounts
LoansOwed-step now id cents taken books {after = after} a o h i = elim (Bool-cases (id == i)) [
  | inr e ↦
      IsOwed-Moved (at_id id cents i) (books.accounts i) (after.accounts i) (ground arith)
        (step_moves now id i cents taken books h) (o i)
  | inl e ↦
      subst (λ j. IsOwed (after.accounts j)) ((==_iff id i).0 e)
        (elim (Bool-cases (is_zero cents)) [
          | inl z ↦ subst (λ (r : Books). IsOwed (r.accounts id)) (ok_inj (rw z at h)) (o id)
          | inr z ↦ own-IsOwed now id cents taken books a (o id) (rw z at h) (
              subst
                (λ b. Moved (if b then cents else pos 0) (books.accounts id) (after.accounts id))
                (same_true id) (step_moves now id id cents taken books h))
        ])
]

pub apply_net-LoansOwed :
    (now : ℕ) (taken : Accounts) (net : List (ℕ × ℤ)) (books : Books) {after : Books}
    → ((i : ℕ) → Agrees (taken i) (books.accounts i))
    → LoansOwed books.accounts
    → apply_net now taken net books ≡ ok after
    → LoansOwed after.accounts
unfolding apply_net
apply_net-LoansOwed now taken [] books a o h =
    subst (λ (r : Books). LoansOwed r.accounts) (ok_inj h) o
apply_net-LoansOwed now taken ((id, cents) ∷ net) books a o h =
    let (next, k, q) =
      >>=-eq-ok
        (if is_zero cents then ok books else increment_account now id cents (taken id) books) _ h in
    apply_net-LoansOwed now taken net next
      (λ i.
        Agrees-Moved (at_id id cents i) (taken i) (books.accounts i) (next.accounts i)
          (step_moves now id i cents (taken id) books k) (a i))
      (LoansOwed-step now id cents (taken id) books (a id) o k) q
