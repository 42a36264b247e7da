-- ===== src/Transactions/Service/Booked.antt =====
-- The balances of src/app/services/TransactionService.ts and the movements that are stored
-- (`applyAndCreate`, `recordWithin`).
use mathlib.Core.Path.{subst}
use lag_money_manager.Prelude.{
  ℕ, ◌≡◌, refl, ap, sym, ◌∙◌, Option, none, some, List, [], ◌∷◌, map, Bool-cases, inl, inr,
  if◌then◌else◌, ◌==◌, any,
}
use lag_money_manager.Prelude.Int.{ℤ, pos, ◌+ℤ◌, int_laws, +ℤ_zero}
use lag_money_manager.Errors.{ok, >>=-eq-ok, ok_inj}
use lag_money_manager.Accounts.{Account, Accounts, MovementSide}
use lag_money_manager.Accounts.Repository.{get_by_id}
use lag_money_manager.Transactions.{Transaction}
use lag_money_manager.Transactions.Balances.{
  forward, BalanceMove, Books, Gathered, sides_of, gather_side, gather_sides, gather, apply_net,
  move_balances, assert_takes, assert_account_takes,
}
use lag_money_manager.Transactions.Balances.Effect.{Moved}
use lag_money_manager.Transactions.Balances.Net.{
  effect, effects, move_balances_moves, assert_found_passes,
}
use lag_money_manager.Transactions.Rows.{Row, is_live, create}
use lag_money_manager.Transactions.Service.{Store, move_in, create_all, apply_and_create}

-- What the live movements are to an account.
abbrev pub booked_row : Row → ℕ → ℤ
booked_row row i = if is_live row then effect forward row.transaction i else pos 0

unfoldable pub booked : List Row → ℕ → ℤ
booked [] i = pos 0
booked (row ∷ rows) i = booked_row row i +ℤ booked rows i

-- An account holds its opening balance and an amount; one that is not there has nothing.
abbrev pub Holds : Option Account → ℤ → Type 0
Holds none c = c ≡ pos 0
Holds (some a) c = a.balance ≡ a.opening_balance +ℤ c

-- Each balance is what the stored movements make it.
abbrev pub IsBooked : Accounts → List Row → Type 0
IsBooked accounts rows = (i : ℕ) → Holds (accounts i) (booked rows i)

pub Holds-Moved : (c d : ℤ) (o p : Option Account) → Moved c o p → Holds o d → Holds p (d +ℤ c)
Holds-Moved c d none none m h = grind (int_laws, m, h)
Holds-Moved c d none (some b) m h = absurd m
Holds-Moved c d (some a) none m h = absurd m
Holds-Moved c d (some a) (some b) m h =
    subst (λ (r : Account). r.balance ≡ r.opening_balance +ℤ (d +ℤ c)) (sym m) (grind (int_laws, h))

-- A movement that has been given a currency, and is otherwise the same.
abbrev pub IsStamped : Transaction → Transaction → Type 0
IsStamped t t' = t' ≡ record t { currency = t'.currency }

takes-IsStamped :
    (t : Transaction) (side : MovementSide) (o : Option Account) {z : Transaction × Account}
    → assert_takes t side o ≡ ok z
    → IsStamped t z.0
takes-IsStamped t side none h = cc
takes-IsStamped t side (some a) h =
    let e = (assert_found_passes t side a h).3 in
    e ∙ ap (λ (u : Transaction). record t { currency = u.currency }) (sym e)

gather_side-IsStamped :
    (accounts : Accounts) (id : ℕ) (side : MovementSide) (t : Transaction) (g : Gathered)
    {z : Transaction × Gathered}
    → gather_side accounts forward (id, side) t g ≡ ok z
    → IsStamped t z.0
unfolding gather_side assert_account_takes
gather_side-IsStamped accounts id side t g {z} h =
    let (r, k, q) = >>=-eq-ok (assert_takes t side (get_by_id id accounts)) _ h in
    subst (λ (s : Transaction × Gathered). IsStamped t s.0) (ok_inj q) (takes-IsStamped t side _ k)

gather_sides-IsStamped :
    (accounts : Accounts) (sides : List (ℕ × MovementSide)) (t : Transaction) (g : Gathered)
    {z : Transaction × Gathered}
    → gather_sides accounts forward sides t g ≡ ok z
    → IsStamped t z.0
unfolding gather_sides
gather_sides-IsStamped accounts [] t g h =
    subst (λ (s : Transaction × Gathered). IsStamped t s.0) (ok_inj h) refl
gather_sides-IsStamped accounts ((id, side) ∷ sides) t g {z} h =
    let (r, k, q) = >>=-eq-ok (gather_side accounts forward (id, side) t g) _ h in
    let a = gather_side-IsStamped accounts id side t g k in
    let b = gather_sides-IsStamped accounts sides r.0 r.1 q in
    b ∙ ap (λ (s : Transaction). record s { currency = z.0.currency }) a

-- What a list of movements is to an account, once they are stored.
unfoldable pub sum_effects : List Transaction → ℕ → ℤ
sum_effects [] i = pos 0
sum_effects (t ∷ ts) i = effect forward t i +ℤ sum_effects ts i

abbrev pub forwards : List Transaction → List BalanceMove
forwards ts = map (λ t. record { transaction = t; direction = forward }) ts

gather-sum_effects :
    (accounts : Accounts) (ts : List Transaction) (g : Gathered) {z : List Transaction × Gathered}
    (i : ℕ)
    → gather accounts (forwards ts) g ≡ ok z
    → sum_effects z.0 i ≡ effects (forwards ts) i
unfolding gather sum_effects effects
gather-sum_effects accounts [] g i h =
    subst (λ (s : List Transaction × Gathered). sum_effects s.0 i ≡ pos 0) (ok_inj h) refl
gather-sum_effects accounts (t ∷ ts) g i h =
    let (r, k, q) = >>=-eq-ok (gather_sides accounts forward (sides_of t) t g) _ h in
    let (s, k', q') = >>=-eq-ok (gather accounts (forwards ts) r.1) _ q in
    let a = gather_sides-IsStamped accounts (sides_of t) t g k in
    let ih = gather-sum_effects accounts ts r.1 i k' in
    subst
      (λ (w : List Transaction × Gathered).
        sum_effects w.0 i ≡ effect forward t i +ℤ effects (forwards ts) i)
      (ok_inj q')
      (subst
        (λ (u : Transaction).
          effect forward u i +ℤ sum_effects s.0 i ≡ effect forward t i +ℤ effects (forwards ts) i)
        (sym a) (ap (λ c. effect forward t i +ℤ c) ih))

create-booked :
    (t : Transaction) (rows : List Row) {after : List Row} (i : ℕ)
    → create t rows ≡ ok after
    → booked after i ≡ effect forward t i +ℤ booked rows i
unfolding create booked
create-booked t rows i h =
    elim (Bool-cases (any (λ (row : Row). row.transaction.id == t.id) rows)) [
      | inl e ↦ (let k = rw e at h in cc)
      | inr e ↦
          subst (λ (r : List Row). booked r i ≡ effect forward t i +ℤ booked rows i)
            (ok_inj (rw e at h)) refl
    ]

move_to_back : (x y z : ℤ) → x +ℤ y +ℤ z ≡ y +ℤ (x +ℤ z)
move_to_back x y z = omega int_laws

create_all-booked :
    {Shared : Type 0} (ts : List Transaction) (store : Store Shared)
    {z : List Transaction × Store Shared} (i : ℕ)
    → create_all ts store ≡ ok z
    → (booked z.1.rows i ≡ booked store.rows i +ℤ sum_effects ts i)
      × (z.1.accounts ≡ store.accounts)
unfolding create_all sum_effects
create_all-booked [] store i h =
    subst
      (λ (w : List Transaction × Store _).
        (booked w.1.rows i ≡ booked store.rows i +ℤ pos 0) × (w.1.accounts ≡ store.accounts))
      (ok_inj h) (sym (+ℤ_zero _), refl)
create_all-booked (t ∷ ts) store i h =
    let (rows, k, q) = >>=-eq-ok (create t store.rows) _ h in
    let (s, k', q') = >>=-eq-ok (create_all ts (record store { rows = rows })) _ q in
    let ih = create_all-booked ts (record store { rows = rows }) i k' in
    let e = create-booked t store.rows i k in
    subst
      (λ (w : List Transaction × Store _).
        (booked w.1.rows i ≡ booked store.rows i +ℤ (effect forward t i +ℤ sum_effects ts i))
        × (w.1.accounts ≡ store.accounts))
      (ok_inj q')
      (
        (rw e at ih.0) ∙ move_to_back (effect forward t i) (booked store.rows i) (sum_effects ts i),
        ih.1,
      )

move_in-moves :
    {Shared : Type 0} (now : ℕ) (ts : List Transaction) (store : Store Shared)
    {z : List Transaction × Store Shared} (i : ℕ)
    → move_in now (forwards ts) store ≡ ok z
    → Moved (effects (forwards ts) i) (store.accounts i) (z.1.accounts i)
      × (sum_effects z.0 i ≡ effects (forwards ts) i)
      × (z.1.rows ≡ store.rows)
unfolding move_in move_balances
move_in-moves now ts store i h =
    let books : Books = record { accounts = store.accounts; journal = store.journal } in
    let (r, k, q) = >>=-eq-ok (move_balances now (forwards ts) books) _ h in
    let (s, k', q') =
      >>=-eq-ok (gather store.accounts (forwards ts) (record { net = []; taken = λ id. none })) _
        k in
    let (b, l, m) = >>=-eq-ok (apply_net now s.1.taken s.1.net books) _ q' in
    let sums : sum_effects r.0 i ≡ effects (forwards ts) i =
      subst (λ (w : List Transaction × Books). sum_effects w.0 i ≡ effects (forwards ts) i)
        (ok_inj m) (gather-sum_effects store.accounts ts _ i k') in
    subst
      (λ (w : List Transaction × Store _).
        Moved (effects (forwards ts) i) (store.accounts i) (w.1.accounts i)
        × (sum_effects w.0 i ≡ effects (forwards ts) i)
        × (w.1.rows ≡ store.rows))
      (ok_inj q) (move_balances_moves now (forwards ts) books k i, sums, refl)

-- Movements that are applied and stored keep every balance what the stored movements make it: the
-- opening balance, what they sent to the account, less what they took from it.
pub apply_and_create-IsBooked :
    {Shared : Type 0} (now : ℕ) (ts : List Transaction) (store : Store Shared)
    {z : List Transaction × Store Shared}
    → IsBooked store.accounts store.rows
    → apply_and_create now ts store ≡ ok z
    → IsBooked z.1.accounts z.1.rows
unfolding apply_and_create
apply_and_create-IsBooked now ts store {z} b h i =
    let (r, k, q) = >>=-eq-ok (move_in now (forwards ts) store) _ h in
    let m = move_in-moves now ts store i k in
    let c = create_all-booked r.0 r.1 i q in
    let total : booked z.1.rows i ≡ booked store.rows i +ℤ effects (forwards ts) i =
      c.0 ∙ rw (m.2, m.1) in
    subst (λ (accounts : Accounts). Holds (accounts i) (booked z.1.rows i)) (sym c.1)
      (subst (λ d. Holds (r.1.accounts i) d) (sym total)
        (Holds-Moved (effects (forwards ts) i) (booked store.rows i) (store.accounts i)
          (r.1.accounts i) m.0 (b i)))
