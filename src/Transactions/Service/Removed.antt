-- ===== src/Transactions/Service/Removed.antt =====
-- `deleteTransaction` of src/app/services/TransactionService.ts: the movement that is taken back, its
-- row, and the balances.
use mathlib.Core.Path.{subst}
use lag_money_manager.Prelude.{
  ℕ, Bool, true, ◌≡◌, refl, ap, sym, ◌∙◌, Option, none, some, List, [], ◌∷◌, arith, ◌&&◌,
  Bool-cases, inl, inr, ◌==◌, is_some,
}
use lag_money_manager.Prelude.Int.{ℤ, pos, ◌+ℤ◌, ◌-ℤ◌, int_laws, +ℤ_assoc}
use lag_money_manager.Errors.{
  ok, >>=-eq-ok, >>-eq-ok, ok_inj, throw_if, api, bad_request, settlement_movement_locked,
}
use lag_money_manager.Concurrency.{assert_fresh, same_version}
use lag_money_manager.Transactions.{Transaction}
use lag_money_manager.Transactions.Balances.{forward, back, BalanceMove, Books, move_balances}
use lag_money_manager.Transactions.Balances.Effect.{Moved}
use lag_money_manager.Transactions.Balances.Net.{
  effect, received, spent, effects, move_balances_moves,
}
use lag_money_manager.Transactions.Rows.{
  Row, is_live, is_live_id, at_version, guarded, find, write, delete, deleted_row,
  deleted_or_not_found, get_by_id, transaction_of,
}
use lag_money_manager.Transactions.Service.{Store, SharedLedger, move_in}
use lag_money_manager.Transactions.Service.Edit.{owned, dropped, delete_transaction}
use lag_money_manager.Transactions.Service.Booked.{booked, booked_row, Holds, Holds-Moved}
use lag_money_manager.Transactions.Service.Inserted.{IsBalanced}

pub some_inj : {A : Type 0} {a b : A} → some a ≡ some b → a ≡ b
some_inj h = cc

swap_in : (x y b : ℤ) → y +ℤ b ≡ x +ℤ b +ℤ (y -ℤ x)
swap_in x y b = omega int_laws

-- A row that is written changes what is booked by what it was and what it is.
pub write-booked :
    (p : Row → Bool) (change : Row → Row) (rows : List Row) (i : ℕ) {r : Row}
    → find p rows ≡ some r
    → booked (write p change rows) i ≡ booked rows i +ℤ (booked_row (change r) i -ℤ booked_row r i)
unfolding find write booked
write-booked p change [] i h = cc
write-booked p change (row ∷ rows) i {r} h = elim (Bool-cases (p row)) [
  | inl e ↦ rw e (
      subst
        (λ s.
          booked_row (change row) i +ℤ booked rows i
          ≡ booked_row row i +ℤ booked rows i +ℤ (booked_row (change s) i -ℤ booked_row s i))
        (some_inj (rw e at h))
        (swap_in (booked_row row i) (booked_row (change row) i) (booked rows i)))
  | inr e ↦ rw (e, write-booked p change rows i (rw e at h)) (sym (+ℤ_assoc _ _ _))
]

-- What a filter finds first, a narrower one finds if it holds there.
pub find_narrower :
    (p q : Row → Bool) (rows : List Row) {r : Row}
    → find p rows ≡ some r
    → q r ≡ true
    → find (λ row. p row && q row) rows ≡ some r
unfolding find
find_narrower p q [] h k = cc
find_narrower p q (row ∷ rows) {r} h k = elim (Bool-cases (p row)) [
  | inl e ↦ (let w = some_inj (rw e at h) in rw (e, subst (λ s. q s ≡ true) (sym w) k) (ap some w))
  | inr e ↦ rw e (find_narrower p q rows (rw e at h) k)
]

pub find_passes : (p : Row → Bool) (rows : List Row) {r : Row} → find p rows ≡ some r → p r ≡ true
unfolding find
find_passes p [] h = cc
find_passes p (row ∷ rows) h = elim (Bool-cases (p row)) [
  | inl e ↦ subst (λ s. p s ≡ true) (some_inj (rw e at h)) e
  | inr e ↦ find_passes p rows (rw e at h)
]

pub fresh_version :
    (stamp version : Option ℕ)
    → assert_fresh stamp version ≡ ok tt
    → at_version version stamp ≡ true
unfolding assert_fresh same_version
fresh_version stamp none h = refl
fresh_version none (some v) h = cc
fresh_version (some s) (some v) h = ground arith

pub row_of :
    (o : Option Row) {t : Transaction}
    → transaction_of o ≡ some t
    → (r : Row) × (o ≡ some r) × (r.transaction ≡ t)
row_of none h = cc
row_of (some r) h = (r, refl, some_inj h)

pub live_of : (id : ℕ) (r : Row) → is_live_id id r ≡ true → is_live r ≡ true
live_of id r h = ground arith

-- A live row holds what its movement is.
pub booked_live :
    (r : Row) (i : ℕ) → is_live r ≡ true → booked_row r i ≡ effect forward r.transaction i
booked_live r i h = rw h

undone : (x y b : ℤ) → b +ℤ (pos 0 -ℤ (x -ℤ y)) ≡ b +ℤ (y -ℤ x +ℤ pos 0)
undone x y b = omega int_laws

abbrev reversal : Transaction → List BalanceMove
reversal t = record { transaction = t; direction = back } ∷ []

deleted_keeps :
    (o : Option Row) (after rows' : List Row)
    → deleted_or_not_found o after ≡ ok rows'
    → after ≡ rows'
deleted_keeps none after rows' h = cc
deleted_keeps (some r) after rows' h = ok_inj h

-- A tombstone takes away what its movement was.
delete-booked :
    (now id : ℕ) (version : Option ℕ) (rows : List Row) (t : Transaction) {rows' : List Row} (i : ℕ)
    → get_by_id id rows ≡ some t
    → at_version version t.updated_at ≡ true
    → delete now id version rows ≡ ok rows'
    → booked rows' i ≡ booked rows i +ℤ effects (reversal t) i
unfolding delete effects
delete-booked now id version rows t {rows'} i g v h =
    let (r, f, e) = row_of (find (is_live_id id) rows) g in
    let narrow =
      find_narrower (is_live_id id) (λ row. at_version version row.transaction.updated_at) rows f
        (subst (λ (u : Transaction). at_version version u.updated_at ≡ true) (sym e) v) in
    let kept = deleted_keeps (find (guarded id version) rows) _ rows' h in
    let w = write-booked (guarded id version) (deleted_row now) rows i narrow in
    let live = booked_live r i (live_of id r (find_passes (is_live_id id) rows f)) in
    let same = ap (λ (u : Transaction). effect forward u i) e in
    ap (λ rs. booked rs i) (sym kept)
    ∙ w
    ∙ ap (λ x. booked rows i +ℤ (pos 0 -ℤ x)) (live ∙ same)
    ∙ undone (received t i) (spent t i) (booked rows i)

pub owned_eq :
    (user_id : ℕ) (o : Option Transaction) {t : Transaction} → owned user_id o ≡ ok t → o ≡ some t
owned_eq user_id none h = cc
owned_eq user_id (some u) h = elim (Bool-cases (u.user_id == user_id)) [
  | inl e ↦ ap some (ok_inj (rw e at h))
  | inr e ↦ (let k = rw e at h in cc)
]

module _ {Shared : Type 0} where
  -- What moves do to the accounts of a store, whose rows they leave.
  pub move_in-Moved :
      (now : ℕ) (moves : List BalanceMove) (store : Store Shared)
      {z : List Transaction × Store Shared} (i : ℕ)
      → move_in now moves store ≡ ok z
      → Moved (effects moves i) (store.accounts i) (z.1.accounts i) × (z.1.rows ≡ store.rows)
  unfolding move_in
  move_in-Moved now moves store i h =
      let books : Books = record { accounts = store.accounts; journal = store.journal } in
      let (r, k, q) = >>=-eq-ok (move_balances now moves books) _ h in
      subst
        (λ (w : List Transaction × Store Shared).
          Moved (effects moves i) (store.accounts i) (w.1.accounts i) × (w.1.rows ≡ store.rows))
        (ok_inj q) (move_balances_moves now moves books k i, refl)

  dropped-none :
      (ledger : SharedLedger Shared) (o : Option ℕ) (t : Transaction) (store after : Store Shared)
      → o ≡ none
      → dropped ledger o t store ≡ ok after
      → store ≡ after
  dropped-none ledger none t store after e h = ok_inj h
  dropped-none ledger (some x) t store after e h = cc

  -- A movement of no group that is deleted keeps every balance what the stored movements make it: its
  -- accounts get back what it moved, and its row no longer counts.
  pub delete_transaction-IsBalanced :
      (ledger : SharedLedger Shared) (now id user_id : ℕ) (version : Option ℕ)
      (store : Store Shared) (t : Transaction) {after : Store Shared}
      → get_by_id id store.rows ≡ some t
      → t.shared_expense_id ≡ none
      → IsBalanced store
      → delete_transaction ledger now id user_id version store ≡ ok after
      → IsBalanced after
  unfolding delete_transaction
  delete_transaction-IsBalanced ledger now id user_id version store t {after} g s b h i =
      let (u, k, q) = >>=-eq-ok (owned user_id (get_by_id id store.rows)) _ h in
      let found = owned_eq user_id (get_by_id id store.rows) k in
      let alone =
        subst (λ (w : Transaction). w.shared_expense_id ≡ none) (some_inj (sym g ∙ found)) s in
      let (fresh, q1) = >>-eq-ok (assert_fresh u.updated_at version) _ q in
      let (open', q2) =
        >>-eq-ok
          (throw_if (is_some u.shared_settlement_id) (api bad_request settlement_movement_locked)) _
          q1 in
      let (moved, k3, q3) =
        >>=-eq-ok (move_in now (reversal u) (record store { journal = [] })) _ q2 in
      let (unshared, k4, q4) = >>=-eq-ok (dropped ledger u.shared_expense_id u moved.1) _ q3 in
      let (rows, k5, q5) = >>=-eq-ok (delete now id version unshared.rows) _ q4 in
      let same = dropped-none ledger u.shared_expense_id u moved.1 unshared alone k4 in
      let m = move_in-Moved now (reversal u) (record store { journal = [] }) i k3 in
      let kept : unshared.rows ≡ store.rows = ap (λ (w : Store Shared). w.rows) (sym same) ∙ m.1 in
      let d =
        delete-booked now id version store.rows u i found (fresh_version u.updated_at version fresh)
          (subst (λ rs. delete now id version rs ≡ ok rows) kept k5) in
      subst (λ (w : Store Shared). Holds (w.accounts i) (booked w.rows i)) (ok_inj q5)
        (subst (λ c. Holds (unshared.accounts i) c) (sym d)
          (subst
            (λ (w : Store Shared).
              Holds (w.accounts i) (booked store.rows i +ℤ effects (reversal u) i))
            same
            (Holds-Moved (effects (reversal u) i) (booked store.rows i) (store.accounts i)
              (moved.1.accounts i) m.0 (b i))))
