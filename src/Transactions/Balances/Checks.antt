-- ===== src/Transactions/Balances/Checks.antt =====
-- What `assertAccountTakes` of src/app/services/TransactionService.ts asks of the accounts of a
-- movement that `moveBalances` applies.
use mathlib.Core.Path.{subst}
use lag_money_manager.Prelude.{ℕ, ◌≡◌, refl, sym, ap, ◌∙◌, Option, none, some, List, [], ◌∷◌, All}
use lag_money_manager.Errors.{ok, >>=-eq-ok, ok_inj}
use lag_money_manager.Accounts.{Account, Accounts, MovementSide, refuse_movement}
use lag_money_manager.Accounts.Repository.{get_by_id}
use lag_money_manager.Transactions.{Transaction}
use lag_money_manager.Transactions.Balances.{
  forward, BalanceMove, Books, Gathered, sides_of, gather_side, gather_sides, gather, move_balances,
  assert_account_takes, assert_takes,
}
use lag_money_manager.Transactions.Balances.Net.{assert_found_passes}

-- An account takes a side of a movement: it is there, not archived, of the movement's owner, and its
-- type does not refuse the movement.
abbrev pub Takes : Accounts → Transaction → ℕ × MovementSide → Type 0
Takes accounts t side =
    (a : Account) × (get_by_id side.0 accounts ≡ some a)
    × (a.user_id ≡ t.user_id)
    × (refuse_movement t.type a.type side.1 ≡ none)

takes_lem :
    (accounts : Accounts) (t : Transaction) (id : ℕ) (o : Option Account) (side : MovementSide)
    {t' : Transaction} {b : Account}
    → get_by_id id accounts ≡ o
    → assert_takes t side o ≡ ok (t', b)
    → Takes accounts t (id, side) × (t'.user_id ≡ t.user_id) × (t'.type ≡ t.type)
takes_lem accounts t id none side e h = cc
takes_lem accounts t id (some a) side e h =
    let p = assert_found_passes t side a h in
    subst
      (λ (z : Transaction).
        Takes accounts t (id, side) × (z.user_id ≡ t.user_id) × (z.type ≡ t.type))
      (sym p.3) ((a, e, p.0, p.1), refl, refl)

-- A stamped movement is taken where the movement is.
Takes-same :
    (accounts : Accounts) (t t' : Transaction) (sides : List (ℕ × MovementSide))
    → t'.user_id ≡ t.user_id
    → t'.type ≡ t.type
    → All (Takes accounts t') sides
    → All (Takes accounts t) sides
Takes-same accounts t t' [] u y h = tt
Takes-same accounts t t' (side ∷ sides) u y ((a, e, p, r), rest) = (
  (a, e, p ∙ u, subst (λ z. refuse_movement z a.type side.1 ≡ none) y r),
  Takes-same accounts t t' sides u y rest,
)

gather_sides-Takes :
    (accounts : Accounts) (sides : List (ℕ × MovementSide)) (t : Transaction) (g : Gathered)
    {z : Transaction × Gathered}
    → gather_sides accounts forward sides t g ≡ ok z
    → All (Takes accounts t) sides
unfolding gather_sides gather_side assert_account_takes
gather_sides-Takes accounts [] t g h = tt
gather_sides-Takes accounts ((id, side) ∷ sides) t g h =
    let (r, k, q) = >>=-eq-ok (gather_side accounts forward (id, side) t g) _ h in
    let (s, l, m) = >>=-eq-ok (assert_takes t side (get_by_id id accounts)) _ k in
    let p = takes_lem accounts t id (get_by_id id accounts) side refl l in
    let same = ap (λ (z : Transaction × Gathered). z.0) (ok_inj m) in
    (
      p.0,
      Takes-same accounts t r.0 sides (subst (λ (z : Transaction). z.user_id ≡ t.user_id) same p.1)
          (subst (λ (z : Transaction). z.type ≡ t.type) same p.2)
          (gather_sides-Takes accounts sides r.0 r.1 q),
    )

-- What `moveBalances` asks of one move.
abbrev pub IsTaken : Accounts → BalanceMove → Type 0
IsTaken accounts move =
    (move.direction ≡ forward) → All (Takes accounts move.transaction) (sides_of move.transaction)

gather-IsTaken :
    (accounts : Accounts) (moves : List BalanceMove) (g : Gathered)
    {z : List Transaction × Gathered}
    → gather accounts moves g ≡ ok z
    → All (IsTaken accounts) moves
unfolding gather
gather-IsTaken accounts [] g h = tt
gather-IsTaken accounts (move ∷ moves) g h =
    let (r, k, q) =
      >>=-eq-ok
        (gather_sides accounts move.direction (sides_of move.transaction) move.transaction g) _ h in
    let (r', k', q') = >>=-eq-ok (gather accounts moves r.1) _ q in
    (
      λ e. gather_sides-Takes accounts (sides_of move.transaction) move.transaction g (rw e at k),
      gather-IsTaken accounts moves r.1 k',
    )

-- When movements are applied, each account a movement uses is there and not archived, belongs to the
-- owner of the movement, and is not one its rules refuse, so no income lands on a card or a loan.
-- Nothing is asked of the accounts of a movement that is taken back.
pub move_balances-IsTaken :
    (now : ℕ) (moves : List BalanceMove) (books : Books) {z : List Transaction × Books}
    → move_balances now moves books ≡ ok z
    → All (IsTaken books.accounts) moves
unfolding move_balances
move_balances-IsTaken now moves books h =
    let (r, k, q) =
      >>=-eq-ok (gather books.accounts moves (record { net = []; taken = λ id. none })) _ h in
    gather-IsTaken books.accounts moves _ k
