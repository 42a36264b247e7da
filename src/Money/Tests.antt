-- ===== src/Money/Tests.antt =====
-- Amounts of two decimals that `hasValidPrecision` of src/shared/money.ts takes, and one that it refuses.
use lag_money_manager.Prelude.{true, false, ◌≡◌, refl}
use lag_money_manager.Prelude.Int.{pos}
use lag_money_manager.Money.{has_valid_precision, is_whole_minor}

takes_cents : has_valid_precision (pos 1999) 2 ≡ true
unfolding has_valid_precision
takes_cents = refl

takes_a_million : has_valid_precision (pos 100000000) 2 ≡ true
unfolding has_valid_precision
takes_a_million = refl

refuses_half_units : has_valid_precision (pos 1050) 0 ≡ false
unfolding has_valid_precision
refuses_half_units = refl

-- 131072.02 times 100 is 13107201.999999998 as doubles, further from a whole number than 1e-9.
refuses_whole_cents :
    (is_whole_minor (pos 13107202) 2 ≡ true) × (has_valid_precision (pos 13107202) 2 ≡ false)
unfolding is_whole_minor has_valid_precision
refuses_whole_cents = (refl, refl)
