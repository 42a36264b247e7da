-- ===== src/Money/Rounding.antt =====
-- `Math.round` on an amount, and the way back: `toMinor` of src/shared/splitShares.ts, and the
-- division by the scale that ends `resolveShares`.
use lag_money_manager.Prelude.{ℕ, suc, ◌+◌, ◌-◌, ◌*◌, ◌/◌, ◌%◌, ◌≡◌, arith}
use lag_money_manager.Prelude.Int.{ℤ, pos, negsuc, sub_ℕ, pos_part, neg_part}

-- `toMinor`: the amount times the scale, a half rounded up, as `Math.round` does.
unfoldable pub to_minor : ℤ → ℕ → ℤ
to_minor (pos n) scale = pos ((n * scale * 2 + 100) / 200)
to_minor (negsuc n) scale = sub_ℕ 0 ((suc n * scale * 2 - 100 + 199) / 200)

-- `share / scale`, in hundredths
unfoldable pub of_minor : ℕ → ℤ → ℤ
of_minor scale (pos n) = pos (n * 100 / scale)
of_minor scale (negsuc n) = sub_ℕ 0 (suc n * 100 / scale)

-- With a scale of a hundred an amount is its own number of minor units.
pub to_minor_hundred : (a : ℤ) → to_minor a 100 ≡ a
unfolding to_minor
to_minor_hundred (pos n) = ground arith
to_minor_hundred (negsuc n) = ground arith

-- Rounding to a unit is the identity on whole units, and comes back to them.
pub of_minor-to_minor_one :
    (a : ℤ) → pos_part a % 100 ≡ 0 → neg_part a % 100 ≡ 0 → of_minor 1 (to_minor a 1) ≡ a
unfolding to_minor of_minor
of_minor-to_minor_one (pos n) h k = ground arith
of_minor-to_minor_one (negsuc n) h k = ground arith
