-- ===== src/Transactions/Balances/LoanCap.antt =====
-- `moveBalances` of src/app/services/TransactionService.ts as a whole, and the cap on loans.
use mathlib.Core.Path.{subst}
use lag_money_manager.Prelude.{
  ℕ, Bool, true, false, ◌≡◌, refl, sym, ap, Option, none, some, List, [], ◌∷◌, if◌then◌else◌, ◌==◌,
  ==_iff, arith,
}
use lag_money_manager.Errors.{ok, >>=-eq-ok, ok_inj}
use lag_money_manager.Accounts.{Account, Accounts, MovementSide}
use lag_money_manager.Accounts.Repository.{get_by_id, where_holds, is_active}
use lag_money_manager.Transactions.{Transaction}
use lag_money_manager.Transactions.Balances.{
  Direction, forward, back, BalanceMove, Books, Gathered, sides_of, gather_side, gather_sides,
  gather, apply_net, move_balances, assert_account_takes, assert_takes,
}
use lag_money_manager.Transactions.Balances.Net.{assert_found_passes}
use lag_money_manager.Transactions.Balances.Loans.{Agrees, LoansOwed, apply_net-LoansOwed}

-- The accounts that were read are those that are stored.
abbrev AllAgree : Accounts → Gathered → Type 0
AllAgree accounts g = (i : ℕ) → Agrees (g.taken i) (accounts i)

-- What is found active is what is stored.
Agrees-get :
    (o : Option Account) (a : Account) → where_holds is_active o ≡ some a → Agrees (some a) o
Agrees-get none a h = tt
Agrees-get (some b) a h = ground arith

Agrees-if :
    (b : Bool) (a : Account) (o taken : Option Account)
    → (b ≡ true → Agrees (some a) o)
    → Agrees taken o
    → Agrees (if b then some a else taken) o
Agrees-if true a o taken h k = h refl
Agrees-if false a o taken h k = k

takes_found :
    (t : Transaction) (side : MovementSide) (o : Option Account) {z : Transaction × Account}
    → assert_takes t side o ≡ ok z
    → o ≡ some z.1
takes_found t side none h = cc
takes_found t side (some a) h = ap some (sym (assert_found_passes t side a h).2)

gather_side-AllAgree :
    (accounts : Accounts) (direction : Direction) (id : ℕ) (side : MovementSide) (t : Transaction)
    (g : Gathered) {z : Transaction × Gathered}
    → AllAgree accounts g
    → gather_side accounts direction (id, side) t g ≡ ok z
    → AllAgree accounts z.1
unfolding gather_side assert_account_takes
gather_side-AllAgree accounts back id side t g a h =
    subst (λ (r : Transaction × Gathered). AllAgree accounts r.1) (ok_inj h) a
gather_side-AllAgree accounts forward id side t g a h =
    let (r, k, q) = >>=-eq-ok (assert_takes t side (get_by_id id accounts)) _ h in
    let found = takes_found t side (get_by_id id accounts) k in
    subst (λ (s : Transaction × Gathered). AllAgree accounts s.1) (ok_inj q)
      (λ i.
        Agrees-if (id == i) r.1 (accounts i) (g.taken i)
          (λ e.
            subst (λ j. Agrees (some r.1) (accounts j)) ((==_iff id i).0 e)
              (Agrees-get (accounts id) r.1 found))
          (a i))

gather_sides-AllAgree :
    (accounts : Accounts) (direction : Direction) (sides : List (ℕ × MovementSide))
    (t : Transaction) (g : Gathered) {z : Transaction × Gathered}
    → AllAgree accounts g
    → gather_sides accounts direction sides t g ≡ ok z
    → AllAgree accounts z.1
unfolding gather_sides
gather_sides-AllAgree accounts direction [] t g a h =
    subst (λ (r : Transaction × Gathered). AllAgree accounts r.1) (ok_inj h) a
gather_sides-AllAgree accounts direction ((id, side) ∷ sides) t g a h =
    let (r, k, q) = >>=-eq-ok (gather_side accounts direction (id, side) t g) _ h in
    gather_sides-AllAgree accounts direction sides r.0 r.1
      (gather_side-AllAgree accounts direction id side t g a k) q

gather-AllAgree :
    (accounts : Accounts) (moves : List BalanceMove) (g : Gathered)
    {z : List Transaction × Gathered}
    → AllAgree accounts g
    → gather accounts moves g ≡ ok z
    → AllAgree accounts z.1
unfolding gather
gather-AllAgree accounts [] g a h =
    subst (λ (r : List Transaction × Gathered). AllAgree accounts r.1) (ok_inj h) a
gather-AllAgree accounts (move ∷ moves) g a h =
    let (r, k, q) =
      >>=-eq-ok
        (gather_sides accounts move.direction (sides_of move.transaction) move.transaction g) _ h in
    let (s, k', q') = >>=-eq-ok (gather accounts moves r.1) _ q in
    subst (λ (z : List Transaction × Gathered). AllAgree accounts z.1) (ok_inj q')
      (gather-AllAgree accounts moves r.1
        (gather_sides-AllAgree accounts move.direction (sides_of move.transaction) move.transaction
          g a k)
        k')

-- If no loan is above zero, none is after movements were applied or taken back: a credit that would
-- end above zero is refused, whatever the other movements do to the loan.
pub move_balances-LoansOwed :
    (now : ℕ) (moves : List BalanceMove) (books : Books) {z : List Transaction × Books}
    → LoansOwed books.accounts
    → move_balances now moves books ≡ ok z
    → LoansOwed z.1.accounts
unfolding move_balances
move_balances-LoansOwed now moves books o h =
    let start : Gathered = record { net = []; taken = λ id. none } in
    let (r, k, q) = >>=-eq-ok (gather books.accounts moves start) _ h in
    let (next, k', q') = >>=-eq-ok (apply_net now r.1.taken r.1.net books) _ q in
    subst (λ (z : List Transaction × Books). LoansOwed z.1.accounts) (ok_inj q')
      (apply_net-LoansOwed now r.1.taken r.1.net books
        (gather-AllAgree books.accounts moves start (λ i. tt) k) o k')
