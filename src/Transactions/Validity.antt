-- ===== src/Transactions/Validity.antt =====
-- The shape of a movement that `assertValid` of src/domain/entities/Transaction.ts lets through.
use lag_money_manager.Prelude.{
  ℕ, ◌+◌, ◌≤◌, ◌≡◌, ◌≢◌, ◌⊎◌, ◌↔◌, Option, is_some, is_none, true, arith, same_id_iff,
}
use lag_money_manager.Prelude.Int.{pos, ◌≤ℤ◌}
use lag_money_manager.Errors.{ok, both_passed, ◌>>◌}
use lag_money_manager.Money.{max_amount}
use lag_money_manager.Accounts.{TransactionType, income, expense, transfer, adjustment, settlement}
use lag_money_manager.Transactions.{
  Transaction, day_ms, assert_figures, assert_links, assert_sides, assert_valid,
}

-- A field is there, or it is not.
abbrev pub Given : Option ℕ → Type 0
Given o = is_some o ≡ true

abbrev pub Absent : Option ℕ → Type 0
Absent o = is_none o ≡ true

-- The accounts and the category that each type of movement has.
abbrev pub HasSides : TransactionType → Transaction → Type 0
HasSides income t = Absent t.from_account_id × Given t.to_account_id
HasSides expense t = Given t.from_account_id × Absent t.to_account_id
HasSides transfer t =
    Given t.from_account_id × Given t.to_account_id × (t.from_account_id ≢ t.to_account_id)
HasSides adjustment t =
    ((Given t.from_account_id × Absent t.to_account_id)
      ⊎ (Absent t.from_account_id × Given t.to_account_id))
    × Absent t.category_id
HasSides settlement t =
    ((Given t.from_account_id × Absent t.to_account_id)
      ⊎ (Absent t.from_account_id × Given t.to_account_id))
    × Absent t.category_id
    × Given t.shared_settlement_id

-- Both ids are there, or neither is.
abbrev pub Together : Option ℕ → Option ℕ → Type 0
Together a b = (Given a × Given b) ⊎ (Absent a × Absent b)

-- A movement of a whole shape.
pub record IsWellFormed (now : ℕ) (t : Transaction) : Type 0 where
  pub positive : pos 1 ≤ℤ t.amount
  pub limited : t.amount ≤ℤ pos max_amount
  pub past : t.date ≤ now + day_ms
  pub yours_nonneg : pos 0 ≤ℤ t.counts_as_yours
  pub yours_le : t.counts_as_yours ≤ℤ t.amount
  pub shared : Together t.shared_expense_id t.shared_group_id
  pub taken_over : Together t.imported_from_expense_id t.imported_from_group_id
  pub shared_is_expense : Given t.shared_expense_id → t.type ≡ expense
  pub taken_over_is_expense : Given t.imported_from_expense_id → t.type ≡ expense
  pub one_origin : Given t.imported_from_expense_id → Absent t.shared_expense_id
  pub not_settled : Given t.shared_expense_id → Absent t.shared_settlement_id
  pub sides : HasSides t.type t

module _ (now : ℕ) (t : Transaction) where
  figures_iff : (assert_figures now t ≡ ok tt) ↔ (
      (pos 1 ≤ℤ t.amount)
      × (t.amount ≤ℤ pos max_amount)
      × (t.date ≤ now + day_ms)
      × (pos 0 ≤ℤ t.counts_as_yours)
      × (t.counts_as_yours ≤ℤ t.amount))
  unfolding assert_figures
  figures_iff = (λ h. ground arith, λ h. ground arith)

  links_iff : (assert_links t ≡ ok tt) ↔ (
      Together t.shared_expense_id t.shared_group_id
      × Together t.imported_from_expense_id t.imported_from_group_id
      × (Given t.shared_expense_id → t.type ≡ expense)
      × (Given t.imported_from_expense_id → t.type ≡ expense)
      × (Given t.imported_from_expense_id → Absent t.shared_expense_id)
      × (Given t.shared_expense_id → Absent t.shared_settlement_id))
  unfolding assert_links
  links_iff = (λ h. ground arith, λ h. ground arith)

sides_iff :
    (type : TransactionType) (t : Transaction) → (assert_sides type t ≡ ok tt) ↔ HasSides type t
unfolding assert_sides
sides_iff income t = (λ h. ground arith, λ h. ground arith)
sides_iff expense t = (λ h. ground arith, λ h. ground arith)
sides_iff transfer t = (
  λ h. ground (arith, same_id_iff t.from_account_id t.to_account_id),
  λ h. ground (arith, same_id_iff t.from_account_id t.to_account_id),
)
sides_iff adjustment t = (λ h. ground arith, λ h. ground arith)
sides_iff settlement t = (λ h. ground arith, λ h. ground arith)

-- assertValid passes a movement when, and only when, it has a whole shape: a positive amount within
-- the limit, a date at most a day ahead, a share of yours between zero and the amount, whole links to
-- groups that only an expense has, and exactly the accounts its type calls for.
pub assert_valid_iff :
    (now : ℕ) (t : Transaction) → (assert_valid now t ≡ ok tt) ↔ IsWellFormed now t
unfolding assert_valid
assert_valid_iff now t = (
  λ h.
      let a = both_passed (assert_figures now t) (assert_links t >> assert_sides t.type t) in
      let b = both_passed (assert_links t) (assert_sides t.type t) in
      let f = (figures_iff now t).0 (a.0 h).0 in
      let r = b.0 (a.0 h).1 in
      let l = (links_iff now t).0 r.0 in
      record {
        positive = f.0;
        limited = f.1;
        past = f.2;
        yours_nonneg = f.3;
        yours_le = f.4;
        shared = l.0;
        taken_over = l.1;
        shared_is_expense = l.2;
        taken_over_is_expense = l.3;
        one_origin = l.4;
        not_settled = l.5;
        sides = (sides_iff t.type t).0 r.1;
      },
  λ w.
      let links = (links_iff now t).1 (
        w.shared, w.taken_over, w.shared_is_expense, w.taken_over_is_expense, w.one_origin,
        w.not_settled,
      ) in
      (both_passed (assert_figures now t) (assert_links t >> assert_sides t.type t)).1 (
        (figures_iff now t).1 (w.positive, w.limited, w.past, w.yours_nonneg, w.yours_le),
        (both_passed (assert_links t) (assert_sides t.type t)).1
            (links, (sides_iff t.type t).1 w.sides),
      ),
)
