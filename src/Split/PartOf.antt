-- ===== src/Split/PartOf.antt =====
-- `partOf` of src/shared/splitShares.ts and the exact quotient.
use native.Mathlib.Nat.{div-add-mod, div-mul-le_self, lt-div-mul-add}
use lag_money_manager.Prelude.{ℕ, ◌+◌, ◌*◌, ◌/◌, ◌%◌, ◌≤◌, ◌<◌, ap, arith}
use lag_money_manager.Split.{part_of}

-- The part that `part_of` gives is the whole number just below the exact share: it fits into it,
-- and one unit more would not.
pub part_of_floor :
    (total part whole : ℕ)
    → 0 < whole
    → (part_of total part whole * whole ≤ total * part)
      × (total * part < (part_of total part whole + 1) * whole)
unfolding part_of
part_of_floor total part whole h = omega (
  arith,
  ap (λ (t : ℕ). t * part) (div-add-mod total whole),
  div-mul-le_self (total % whole * part) whole,
  lt-div-mul-add {a = total % whole * part} h,
)

-- Neither product of `part_of` passes the total or the square of the whole, for a part of the whole.
pub part_of_products :
    (total part whole : ℕ)
    → part ≤ whole
    → 0 < whole
    → (total / whole * part ≤ total) × (total % whole * part < whole * whole)
part_of_products total part whole h k = (grind arith, grind arith)
