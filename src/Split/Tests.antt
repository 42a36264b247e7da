-- ===== src/Split/Tests.antt =====
-- Runs of src/shared/splitShares.ts on small splits, and the theorems at them.
use lag_money_manager.Prelude.{◌*◌, ◌+◌, ◌≤◌, ◌<◌, ◌≡◌, refl, none, some, [], ◌∷◌, arith}
use lag_money_manager.Prelude.Int.{pos, negsuc, ◌+ℤ◌, ◌-ℤ◌}
use lag_money_manager.Errors.{ok, err}
use lag_money_manager.Money.{is_whole_minor, currency_decimals, to_minor, of_minor}
use lag_money_manager.Split.{
  SplitRow, SplitInput, equal, percent, exact, fixed_rest, invalid, part_of, assert_shape,
  assert_inputs, mode_shares, equal_shares, percent_shares, exact_shares, fixed_rest_shares,
  resolve_minor, resolve_shares,
}
use lag_money_manager.Split.PartOf.{part_of_floor}
use lag_money_manager.Split.Laws.{IsSplit, resolve_minor-IsSplit}
use lag_money_manager.Split.Scaled.{resolve_shares_exact}

abbrev person : SplitRow
person = record { units = 1; input = none }

abbrev guests : SplitRow
guests = record { units = 3; input = none }

-- A hundred dollars among two people and a block of three guests; the second person paid.
abbrev dinner : SplitInput
dinner = record {
  total = pos 10000;
  currency = some "USD";
  mode = equal;
  rows = person ∷ person ∷ guests ∷ [];
  payer_index = 1;
}

-- A hundred pesos, which have no minor unit, by percentages.
abbrev thirds : SplitInput
thirds = record {
  total = pos 10000;
  currency = some "COP";
  mode = percent;
  rows =
      record { units = 1; input = some (pos 3333) }
      ∷ record { units = 1; input = some (pos 3333) }
      ∷ record { units = 1; input = some (pos 3334) }
      ∷ [];
  payer_index = 0;
}

abbrev pinned : SplitInput
pinned = record {
  total = pos 1001;
  currency = some "EUR";
  mode = fixed_rest;
  rows = record { units = 1; input = some (pos 300) } ∷ person ∷ person ∷ [];
  payer_index = 2;
}

abbrev too_much : SplitInput
too_much = record pinned { total = pos 200 }

abbrev negative : SplitInput
negative = record {
  total = pos 100;
  currency = some "EUR";
  mode = exact;
  rows =
      record { units = 1; input = some (negsuc 49) }
      ∷ record { units = 1; input = some (pos 150) }
      ∷ [];
  payer_index = 0;
}

runs :
    (resolve_shares dinner ≡ ok (pos 2000 ∷ pos 2000 ∷ pos 6000 ∷ []))
    × (resolve_shares thirds ≡ ok (pos 3400 ∷ pos 3300 ∷ pos 3300 ∷ []))
    × (resolve_shares pinned ≡ ok (pos 300 ∷ pos 350 ∷ pos 351 ∷ []))
    × (resolve_shares too_much ≡ err invalid)
    × (resolve_shares negative ≡ err invalid)
unfolding resolve_shares resolve_minor assert_shape assert_inputs mode_shares equal_shares
    percent_shares exact_shares fixed_rest_shares part_of to_minor of_minor currency_decimals ◌+ℤ◌
    ◌-ℤ◌
runs = (refl, refl, refl, refl, refl)

part_of_floor_example :
    (part_of 10000 2 3 * 3 ≤ 10000 * 2) × (10000 * 2 < (part_of 10000 2 3 + 1) * 3)
part_of_floor_example = part_of_floor 10000 2 3 (omega arith)

resolve_minor-IsSplit_example : IsSplit (pos 100) 3 (pos 34 ∷ pos 33 ∷ pos 33 ∷ [])
unfolding resolve_minor assert_shape assert_inputs mode_shares percent_shares part_of to_minor ◌+ℤ◌
    ◌-ℤ◌
resolve_minor-IsSplit_example = resolve_minor-IsSplit thirds 1 (pos 34 ∷ pos 33 ∷ pos 33 ∷ []) refl

resolve_shares_exact_example : IsSplit (pos 1001) 3 (pos 300 ∷ pos 350 ∷ pos 351 ∷ [])
unfolding resolve_shares resolve_minor assert_shape assert_inputs mode_shares fixed_rest_shares
    part_of to_minor of_minor currency_decimals is_whole_minor ◌+ℤ◌ ◌-ℤ◌
resolve_shares_exact_example =
    resolve_shares_exact pinned (pos 300 ∷ pos 350 ∷ pos 351 ∷ []) refl refl
