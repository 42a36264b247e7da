-- ===== src/Imputation/Tests.antt =====
-- Runs of src/shared/sharedImputation.ts on one person's lines, and the theorems at them.
use lag_money_manager.Prelude.{◌+◌, ◌-◌, ◌≡◌, refl, none, some, List, [], ◌∷◌, arith}
use lag_money_manager.Prelude.Int.{pos}
use lag_money_manager.Sorting.{insert, sort}
use lag_money_manager.Imputation.{
  OwedLine, SettledPayment, Payment, Loop, impute, impute_one, impute_loop, oldest_first,
  creation_order, take_back, without_newest, impute_counterparty, at,
}
use lag_money_manager.Imputation.Rounds.{IsFirstOpen, impute_one-IsFirstOpen}
use lag_money_manager.Imputation.Reference.{
  payment_of, impute_one_oldest_first, impute_one_own_group_first, impute_one-cover_all, cover_all,
}
use lag_money_manager.Imputation.Totals.{impute_totals, impute_counterparty_totals, settled_total}

-- Three lines in two groups, not in the order of their dates.
abbrev taxi : OwedLine
taxi = record { key = 7; date = 30; owed = pos 500; group_id = some 1 }

abbrev hotel : OwedLine
hotel = record { key = 8; date = 10; owed = pos 900; group_id = some 2 }

abbrev lunch : OwedLine
lunch = record { key = 9; date = 20; owed = pos 300; group_id = some 1 }

abbrev lines : List OwedLine
lines = taxi ∷ hotel ∷ lunch ∷ []

abbrev ordered : List OwedLine
ordered = hotel ∷ lunch ∷ taxi ∷ []

abbrev payments : List Payment
payments = payment_of (pos 400) (some 1) ∷ payment_of (pos 1000) none ∷ []

abbrev settlements : List SettledPayment
settlements =
    record { id = 2; created_at = some 50; collected = pos 700; paid = pos 0; group_id = none }
    ∷ record { id = 1; created_at = some 40; collected = pos 0; paid = pos 350; group_id = none }
    ∷ []

-- The payment of group 1 passes over the older hotel; the other one covers what is left in order.
imputed :
    impute lines payments ≡ record { settled = (8, 900) ∷ (9, 300) ∷ (7, 200) ∷ []; surplus = 0 }
unfolding impute impute_loop impute_one sort insert oldest_first
imputed = refl

with_one_person : impute_counterparty lines (lunch ∷ []) settlements ≡ record {
  theirs = (8, 650) ∷ (9, 0) ∷ (7, 0) ∷ [];
  yours = (9, 300) ∷ [];
  surplus = record { theirs = 0; yours = 0 };
}
unfolding impute_counterparty impute impute_loop impute_one sort insert oldest_first creation_order
    without_newest take_back
with_one_person = refl

abbrev start : Loop
start = record { opened = 0 ∷ 300 ∷ 500 ∷ []; first_open = 1; surplus = 0 }

impute_totals_example :
    let r = impute lines payments in (settled_total r.settled ≡ 1400) × (r.surplus ≡ 1400 - 1700)
impute_totals_example = impute_totals lines payments

impute_counterparty_totals_example :
    let r = impute_counterparty lines (lunch ∷ []) settlements in
    (settled_total r.yours ≡ 300)
    × (settled_total r.theirs ≡ 650)
    × (r.surplus.theirs ≡ 0)
    × (r.surplus.yours ≡ 0)
impute_counterparty_totals_example = impute_counterparty_totals lines (lunch ∷ []) settlements

impute_one_oldest_first_example :
    at (impute_one ordered start (payment_of (pos 400) none)).opened 1 ≡ 0
unfolding impute_one
impute_one_oldest_first_example =
    impute_one_oldest_first ordered start (pos 400) 1 2 (λ j l. ground arith) (omega arith)
      (omega arith)

impute_one_own_group_first_example :
    at
      (impute_one
        (taxi ∷ hotel ∷ [])
        (record start { opened = 500 ∷ 900 ∷ []; first_open = 0 })
        (payment_of (pos 600) (some 1))).opened
      0
    ≡ 0
unfolding impute_one
impute_one_own_group_first_example =
    impute_one_own_group_first (taxi ∷ hotel ∷ [])
      (record start { opened = 500 ∷ 900 ∷ []; first_open = 0 }) (pos 600) 1 0 1 taxi hotel refl
      refl refl (ground arith) (omega arith)

impute_one-cover_all_example :
    let r = cover_all ordered start (payment_of (pos 900) (some 1)) in
    let s = impute_one ordered start (payment_of (pos 900) (some 1)) in
    (s.opened ≡ r.0) × (s.surplus ≡ 0 + r.1)
impute_one-cover_all_example =
    impute_one-cover_all ordered start (payment_of (pos 900) (some 1)) (λ j l. ground arith)
      (omega arith)

abbrev unmoved : Loop
unmoved = record start { first_open = 0 }

impute_one-IsFirstOpen_example :
    IsFirstOpen unmoved.opened 0 (impute_one ordered unmoved (payment_of (pos 100) none)).first_open
impute_one-IsFirstOpen_example = impute_one-IsFirstOpen ordered unmoved (payment_of (pos 100) none)
