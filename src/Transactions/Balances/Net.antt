-- ===== src/Transactions/Balances/Net.antt =====
-- `moveBalances` of src/app/services/TransactionService.ts as a whole, and what movements send to an
-- account and take from it.
use mathlib.Core.Path.{subst}
use lag_money_manager.Prelude.{
  ℕ, Bool, not, ◌&&◌, ◌≡◌, refl, ap, sym, ◌∙◌, Option, none, some, List, [], ◌∷◌, ◌++◌,
  if◌then◌else◌, arith, same_id,
}
use lag_money_manager.Prelude.Int.{ℤ, pos, ◌+ℤ◌, ◌-ℤ◌, int_laws, +ℤ_assoc, +ℤ_comm, +ℤ_zero}
use lag_money_manager.Errors.{ok, >>=-eq-ok, ok_inj}
use lag_money_manager.Accounts.{Account, Accounts, MovementSide, from, to, refuse_movement}
use lag_money_manager.Accounts.Repository.{get_by_id}
use lag_money_manager.Transactions.{Transaction, is_expense, assert_valid_precision}
use lag_money_manager.Transactions.Balances.{
  Direction, forward, back, BalanceMove, Books, Gathered, sides_of, side_if, signed, gather_side,
  gather_sides, gather, apply_net, move_balances, is_income, assert_account_takes, assert_takes,
  assert_found, or_else,
}
use lag_money_manager.Transactions.Balances.Effect.{
  Moved, at_id, total_at, total-add_net, apply_net_moves,
}

-- What a movement sends to an account, and what it takes from it.
abbrev pub received : Transaction → ℕ → ℤ
received t i =
    if not (is_expense t.type) && same_id t.to_account_id (some i) then t.amount else pos 0

abbrev pub spent : Transaction → ℕ → ℤ
spent t i = if not (is_income t.type) && same_id t.from_account_id (some i) then t.amount else pos 0

-- What a movement that is applied, or taken back, is to an account.
abbrev pub effect : Direction → Transaction → ℕ → ℤ
effect forward t i = received t i -ℤ spent t i
effect back t i = spent t i -ℤ received t i

-- What a list of moves is to an account.
unfoldable pub effects : List BalanceMove → ℕ → ℤ
effects [] i = pos 0
effects (move ∷ moves) i = effect move.direction move.transaction i +ℤ effects moves i

abbrev sides_total : Direction → ℤ → List (ℕ × MovementSide) → ℕ → ℤ
sides_total direction amount [] i = pos 0
sides_total direction amount ((id, side) ∷ sides) i =
    at_id id (signed side direction amount) i +ℤ sides_total direction amount sides i

sides_total_lem :
    (d : Direction) (amount : ℤ) (b c : Bool) (o p : Option ℕ) (i : ℕ)
    → sides_total d amount (side_if b o from ++ side_if c p to) i ≡ (elim d [
      | forward ↦
          (if c && same_id p (some i) then amount else pos 0)
          -ℤ (if b && same_id o (some i) then amount else pos 0)
      | back ↦
          (if b && same_id o (some i) then amount else pos 0)
          -ℤ (if c && same_id p (some i) then amount else pos 0)
    ])
sides_total_lem forward amount b c o p i = grind int_laws
sides_total_lem back amount b c o p i = grind int_laws

sides_of_lem :
    (direction : Direction) (t : Transaction) (i : ℕ)
    → sides_total direction t.amount (sides_of t) i ≡ effect direction t i
unfolding sides_of
sides_of_lem forward t i =
    sides_total_lem forward t.amount (not (is_income t.type)) (not (is_expense t.type))
      t.from_account_id t.to_account_id i
sides_of_lem back t i =
    sides_total_lem back t.amount (not (is_income t.type)) (not (is_expense t.type))
      t.from_account_id t.to_account_id i

-- What an account that takes a movement has passed.
pub assert_found_passes :
    (t : Transaction) (side : MovementSide) (a : Account) {t' : Transaction} {b : Account}
    → assert_found t side a ≡ ok (t', b)
    → (a.user_id ≡ t.user_id)
      × (refuse_movement t.type a.type side ≡ none)
      × (b ≡ a)
      × (t' ≡ record t { currency = or_else t.currency a.currency })
unfolding assert_found assert_valid_precision
assert_found_passes t side a h = ground arith

account_takes_amount :
    (accounts : Accounts) (t : Transaction) (o : Option Account) (side : MovementSide)
    {t' : Transaction} {b : Account}
    → assert_takes t side o ≡ ok (t', b)
    → t'.amount ≡ t.amount
account_takes_amount accounts t none side h = cc
account_takes_amount accounts t (some a) side h =
    ap (λ (r : Transaction). r.amount) (assert_found_passes t side a h).3

gather_side-net :
    (accounts : Accounts) (direction : Direction) (id : ℕ) (side : MovementSide) (t : Transaction)
    (g : Gathered) {t' : Transaction} {g' : Gathered} (i : ℕ)
    → gather_side accounts direction (id, side) t g ≡ ok (t', g')
    → (total_at g'.net i ≡ total_at g.net i +ℤ at_id id (signed side direction t.amount) i)
      × (t'.amount ≡ t.amount)
unfolding gather_side assert_account_takes
gather_side-net accounts forward id side t g i h =
    let (r, k, q) = >>=-eq-ok (assert_takes t side (get_by_id id accounts)) _ h in
    let e = account_takes_amount accounts t (get_by_id id accounts) side k in
    let l = total-add_net id (signed side forward t.amount) g.net i in
    subst
      (λ (z : Transaction × Gathered).
        (total_at z.1.net i ≡ total_at g.net i +ℤ at_id id (signed side forward t.amount) i)
        × (z.0.amount ≡ t.amount))
      (ok_inj q) (l, e)
gather_side-net accounts back id side t g i h =
    let l = total-add_net id (signed side back t.amount) g.net i in
    subst
      (λ (z : Transaction × Gathered).
        (total_at z.1.net i ≡ total_at g.net i +ℤ at_id id (signed side back t.amount) i)
        × (z.0.amount ≡ t.amount))
      (ok_inj h) (l, refl)

gather_sides-net :
    (accounts : Accounts) (direction : Direction) (sides : List (ℕ × MovementSide))
    (t : Transaction) (g : Gathered) {t' : Transaction} {g' : Gathered} (i : ℕ)
    → gather_sides accounts direction sides t g ≡ ok (t', g')
    → total_at g'.net i ≡ total_at g.net i +ℤ sides_total direction t.amount sides i
unfolding gather_sides
gather_sides-net accounts direction [] t g i h =
    subst (λ (z : Transaction × Gathered). total_at z.1.net i ≡ total_at g.net i +ℤ pos 0)
      (ok_inj h) (sym (+ℤ_zero _))
gather_sides-net accounts direction ((id, side) ∷ sides) t g i h =
    let (r, k, q) = >>=-eq-ok (gather_side accounts direction (id, side) t g) _ h in
    let s = gather_side-net accounts direction id side t g i k in
    let ih = gather_sides-net accounts direction sides r.0 r.1 i q in
    (rw (s.1, s.0) at ih) ∙ +ℤ_assoc _ _ _

gather-net :
    (accounts : Accounts) (moves : List BalanceMove) (g : Gathered) {ts : List Transaction}
    {g' : Gathered} (i : ℕ)
    → gather accounts moves g ≡ ok (ts, g')
    → total_at g'.net i ≡ total_at g.net i +ℤ effects moves i
unfolding gather effects
gather-net accounts [] g i h =
    subst (λ (z : List Transaction × Gathered). total_at z.1.net i ≡ total_at g.net i +ℤ pos 0)
      (ok_inj h) (sym (+ℤ_zero _))
gather-net accounts (move ∷ moves) g i h =
    let (r, k, q) =
      >>=-eq-ok
        (gather_sides accounts move.direction (sides_of move.transaction) move.transaction g) _ h in
    let (r', k', q') = >>=-eq-ok (gather accounts moves r.1) _ q in
    let s =
      gather_sides-net accounts move.direction (sides_of move.transaction) move.transaction g i k in
    let e = sides_of_lem move.direction move.transaction i in
    let ih = gather-net accounts moves r.1 i k' in
    subst
      (λ (z : List Transaction × Gathered).
        total_at z.1.net i
        ≡ total_at g.net i +ℤ (effect move.direction move.transaction i +ℤ effects moves i))
      (ok_inj q') ((rw (s, e) at ih) ∙ +ℤ_assoc _ _ _)

-- Movements that are applied, or taken back, move every account by what they send to it less what
-- they take from it, or the reverse, and change no other field of an account but its stamp; no
-- account comes or goes, and one that is not there has nothing to move.
pub move_balances_moves :
    (now : ℕ) (moves : List BalanceMove) (books : Books) {ts : List Transaction} {after : Books}
    → move_balances now moves books ≡ ok (ts, after)
    → (i : ℕ) → Moved (effects moves i) (books.accounts i) (after.accounts i)
unfolding move_balances total_at
move_balances_moves now moves books h i =
    let start : Gathered = record { net = []; taken = λ id. none } in
    let (r, k, q) = >>=-eq-ok (gather books.accounts moves start) _ h in
    let (next, k', q') = >>=-eq-ok (apply_net now r.1.taken r.1.net books) _ q in
    let e : total_at r.1.net i ≡ effects moves i =
      gather-net books.accounts moves start i k ∙ +ℤ_comm _ _ ∙ +ℤ_zero _ in
    subst
      (λ (z : List Transaction × Books).
        Moved (effects moves i) (books.accounts i) (z.1.accounts i))
      (ok_inj q')
      (subst (λ c. Moved c (books.accounts i) (next.accounts i)) e
        (apply_net_moves now r.1.taken r.1.net books i k'))
