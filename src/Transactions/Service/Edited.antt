-- ===== src/Transactions/Service/Edited.antt =====
-- `updateTransaction` of src/app/services/TransactionService.ts: the movement before and after an
-- edit, and the balances.
use mathlib.Core.Path.{subst}
use lag_money_manager.Prelude.{
  ℕ, Bool, true, false, not, ◌≡◌, refl, ap, sym, ◌∙◌, Option, none, some, List, [], ◌∷◌, arith,
  ◌||◌, Bool-cases, inl, inr, if◌then◌else◌, ◌==◌, same_id, same_id_iff,
}
use lag_money_manager.Prelude.Int.{ℤ, pos, ◌+ℤ◌, ◌-ℤ◌, int_laws, eq_ℤ, eq_of_parts}
use lag_money_manager.Errors.{
  ok, ◌>>=◌, >>=-eq-ok, >>-eq-ok, ok_inj, throw_if, api, bad_request, no_code,
}
use lag_money_manager.Concurrency.{assert_fresh}
use lag_money_manager.Accounts.{TransactionType, same_type}
use lag_money_manager.Transactions.{Transaction}
use lag_money_manager.Transactions.Balances.{forward, back, BalanceMove}
use lag_money_manager.Transactions.Balances.Effect.{Moved, Moved-zero}
use lag_money_manager.Transactions.Balances.Net.{effect, received, spent, effects}
use lag_money_manager.Transactions.Rows.{
  Row, Revision, is_live_id, at_version, guarded, find, update, updated_row, written_or_not_found,
  get_by_id,
}
use lag_money_manager.Transactions.Service.{Store, SharedLedger, UpdateTransactionDto, move_in}
use lag_money_manager.Transactions.Service.Create.{Calendar}
use lag_money_manager.Transactions.Service.Edit.{
  owned, edited, patched, moves_money, move_edited, new_day, assert_edit, restated,
  update_transaction, is_other, revision_of,
}
use lag_money_manager.Transactions.Service.Booked.{booked, booked_row, Holds, Holds-Moved}
use lag_money_manager.Transactions.Service.Inserted.{IsBalanced}
use lag_money_manager.Transactions.Service.Removed.{
  write-booked, find_narrower, find_passes, fresh_version, row_of, live_of, booked_live, owned_eq,
  move_in-Moved, some_inj,
}

same_type_eq : (a b : TransactionType) → same_type (some a) b ≡ true → a ≡ b
same_type_eq a b h = ground arith

eq_ℤ_eq : (a b : ℤ) → eq_ℤ a b ≡ true → a ≡ b
eq_ℤ_eq a b h = ground (arith, eq_of_parts a b)

all_kept :
    (a b c d : Bool)
    → (not a || not b || not c || not d) ≡ false
    → (a ≡ true) × (b ≡ true) × (c ≡ true) × (d ≡ true)
all_kept a b c d h = ground arith

-- An edit that moves no money leaves what the movement is to every account.
same_money :
    (u e : Transaction) (i : ℕ) → moves_money u e ≡ false → effect forward u i ≡ effect forward e i
same_money u e i h =
    let k =
      all_kept (same_type (some u.type) e.type) (eq_ℤ u.amount e.amount)
        (same_id u.from_account_id e.from_account_id) (same_id u.to_account_id e.to_account_id) h in
    rw (
      same_type_eq u.type e.type k.0,
      eq_ℤ_eq u.amount e.amount k.1,
      (same_id_iff u.from_account_id e.from_account_id).0 k.2,
      (same_id_iff u.to_account_id e.to_account_id).0 k.3,
    )

written_keeps :
    (o : Option Row) (change : Row → Row) (after : List Row) {z : Transaction × List Row}
    → written_or_not_found o change after ≡ ok z
    → after ≡ z.1
written_keeps none change after h = cc
written_keeps (some r) change after h = ap (λ (w : Transaction × List Row). w.1) (ok_inj h)

-- An edit replaces what the old movement was by what the new one is.
update-booked :
    (now id : ℕ) (dto : UpdateTransactionDto) (day : Option ℕ) (revision : Option Revision)
    (version : Option ℕ) (rows : List Row) (t : Transaction) {z : Transaction × List Row} (i : ℕ)
    → get_by_id id rows ≡ some t
    → at_version version t.updated_at ≡ true
    → update now id (patched dto t day) revision version rows ≡ ok z
    → booked z.1 i ≡ booked rows i +ℤ (effect forward (edited dto t) i -ℤ effect forward t i)
unfolding update
update-booked now id dto day revision version rows t {z} i g v h =
    let (r, f, e) = row_of (find (is_live_id id) rows) g in
    let narrow =
      find_narrower (is_live_id id) (λ row. at_version version row.transaction.updated_at) rows f
        (subst (λ (u : Transaction). at_version version u.updated_at ≡ true) (sym e) v) in
    let change = updated_row now (patched dto t day) revision in
    let kept = written_keeps (find (guarded id version) rows) change _ h in
    let w = write-booked (guarded id version) change rows i narrow in
    let is_live_r = live_of id r (find_passes (is_live_id id) rows f) in
    let old = booked_live r i is_live_r ∙ ap (λ (u : Transaction). effect forward u i) e in
    let new : booked_row (change r) i ≡ effect forward (edited dto t) i =
      booked_live (change r) i is_live_r
      ∙ ap (λ (u : Transaction). effect forward (patched dto t day u) i) e in
    ap (λ rs. booked rs i) (sym kept)
    ∙ w
    ∙ ap (λ x. booked rows i +ℤ (x -ℤ booked_row r i)) new
    ∙ ap (λ x. booked rows i +ℤ (effect forward (edited dto t) i -ℤ x)) old

replaced : (x y u v : ℤ) → y -ℤ x +ℤ (u -ℤ v +ℤ pos 0) ≡ u -ℤ v -ℤ (x -ℤ y)
replaced x y u v = omega int_laws

unchanged : (x : ℤ) → pos 0 ≡ x -ℤ x
unchanged x = omega int_laws

module _ {Shared : Type 0} (ledger : SharedLedger Shared) where
  abbrev swap : Transaction → Transaction → List BalanceMove
  swap old new =
      record { transaction = old; direction = back }
      ∷ record { transaction = new; direction = forward }
      ∷ []

  Moved-edited :
      (now : ℕ) (old new : Transaction) (store after : Store Shared) (i : ℕ)
      → (move_in now (swap old new) store >>= (λ z. ok z.1)) ≡ ok after
      → Moved (effect forward new i -ℤ effect forward old i) (store.accounts i) (after.accounts i)
        × (after.rows ≡ store.rows)
  unfolding effects
  Moved-edited now old new store after i h =
      let (z, k, q) = >>=-eq-ok (move_in now (swap old new) store) _ h in
      let m = move_in-Moved now (swap old new) store i k in
      subst
        (λ (w : Store Shared).
          Moved (effect forward new i -ℤ effect forward old i) (store.accounts i) (w.accounts i)
          × (w.rows ≡ store.rows))
        (ok_inj q)
        (
          subst (λ c. Moved c (store.accounts i) (z.1.accounts i))
              (replaced (received old i) (spent old i) (received new i) (spent new i)) m.0,
          m.1,
        )

  move_edited-Moved :
      (now : ℕ) (old new : Transaction) (store after : Store Shared) (i : ℕ)
      → move_edited ledger now old new store ≡ ok after
      → Moved (effect forward new i -ℤ effect forward old i) (store.accounts i) (after.accounts i)
        × (after.rows ≡ store.rows)
  unfolding move_edited effects
  move_edited-Moved now old new store after i h = elim (Bool-cases (moves_money new old)) [
    | inl e ↦ Moved-edited now old new store after i (rw e at h)
    | inr e ↦
        subst
          (λ (w : Store Shared).
            Moved (effect forward new i -ℤ effect forward old i) (store.accounts i) (w.accounts i)
            × (w.rows ≡ store.rows))
          (ok_inj (rw e at h))
          (
            subst (λ c. Moved c (store.accounts i) (store.accounts i))
                (unchanged (effect forward old i)
                  ∙ ap (λ x. x -ℤ effect forward old i) (sym (same_money new old i e)))
                (Moved-zero (store.accounts i)),
            refl,
          )
  ]

  restated-none :
      (o : Option ℕ) (old saved : Transaction) (store : Store Shared)
      {z : Transaction × Store Shared}
      → o ≡ none
      → restated ledger o old saved store ≡ ok z
      → store ≡ z.1
  restated-none none old saved store e h = ap (λ (w : Transaction × Store Shared). w.1) (ok_inj h)
  restated-none (some x) old saved store e h = cc

  edit_fresh :
      (now : ℕ) (dto : UpdateTransactionDto) (t : Transaction) (version : Option ℕ)
      (store : Store Shared)
      → assert_edit ledger now dto t version store ≡ ok tt
      → at_version version t.updated_at ≡ true
  unfolding assert_edit
  edit_fresh now dto t version store h =
      fresh_version t.updated_at version (>>-eq-ok (assert_fresh t.updated_at version) _ h).0

  -- An edit of a movement of no group keeps every balance what the stored movements make it, whether
  -- or not money moves: what the old one was to an account goes, and what the new one is comes.
  pub update_transaction-IsBalanced :
      (calendar : Calendar) (timezone now id : ℕ) (dto : UpdateTransactionDto) (user_id : ℕ)
      (version : Option ℕ) (store : Store Shared) (t : Transaction) {z : Transaction × Store Shared}
      → get_by_id id store.rows ≡ some t
      → t.shared_expense_id ≡ none
      → IsBalanced store
      → update_transaction ledger calendar timezone now id dto user_id version store ≡ ok z
      → IsBalanced z.1
  unfolding update_transaction
  update_transaction-IsBalanced calendar timezone now id dto user_id version store t {z} g s b h i =
      let (not_other, q0) =
        >>-eq-ok (throw_if (is_other dto.id id) (api bad_request no_code)) _ h in
      let (u, k1, q1) = >>=-eq-ok (owned user_id (get_by_id id store.rows)) _ q0 in
      let found = owned_eq user_id (get_by_id id store.rows) k1 in
      let alone =
        subst (λ (w : Transaction). w.shared_expense_id ≡ none) (some_inj (sym g ∙ found)) s in
      let (checked, q2) = >>-eq-ok (assert_edit ledger now dto u version store) _ q1 in
      let begun : Store Shared = record store { journal = [] } in
      let (moved, k3, q3) = >>=-eq-ok (move_edited ledger now u (edited dto u) begun) _ q2 in
      let (day, k4, q4) = >>=-eq-ok (new_day ledger calendar timezone (edited dto u) u) _ q3 in
      let revision : Option Revision =
        if moves_money (edited dto u) u || not ((edited dto u).date == u.date)
        then some (revision_of now u)
        else none in
      let (saved, k5, q5) =
        >>=-eq-ok (update now id (patched dto u day) revision version moved.rows) _ q4 in
      let m = move_edited-Moved now u (edited dto u) begun moved i k3 in
      let d =
        update-booked now id dto day revision version store.rows u i found
          (edit_fresh now dto u version store checked)
          (subst (λ rs. update now id (patched dto u day) revision version rs ≡ ok saved) m.1 k5) in
      let change = effect forward (edited dto u) i -ℤ effect forward u i in
      subst (λ (w : Store Shared). Holds (w.accounts i) (booked w.rows i))
        (restated-none u.shared_expense_id u saved.0 _ alone q5)
        (subst (λ c. Holds (moved.accounts i) c) (sym d)
          (Holds-Moved change (booked store.rows i) (store.accounts i) (moved.accounts i) m.0
            (b i)))
