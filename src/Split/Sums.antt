-- ===== src/Split/Sums.antt =====
-- The sum of the shares of src/shared/splitShares.ts before the payer's row absorbs the rest.
use native.Mathlib.Nat.{le_of_mul-le-mul_right}
use lag_money_manager.Prelude.{
  ℕ, ◌+◌, ◌*◌, ◌≤◌, ◌<◌, ◌≡◌, refl, false, List, [], ◌∷◌, map, arith, is_none, if◌then◌else◌,
  length, any, All, sum, length-map,
}
use lag_money_manager.Prelude.Int.{ℤ, pos, pos_part, neg_part, ◌+ℤ◌, ◌≤ℤ◌, ltb_ℤ, sum_ℤ, int_laws}
use lag_money_manager.Split.{SplitRow, part_of, pinned_or_zero, rest_units, rest_share}
use lag_money_manager.Split.PartOf.{part_of_floor}

abbrev pub IsNonneg : ℤ → Type 0
IsNonneg x = pos 0 ≤ℤ x

-- Shares of an amount, one to a row, of which the payer's has still to absorb the rest.
pub record IsAlmost (total : ℕ) (n : ℕ) (shares : List ℤ) : Type 0 where
  pub counted : length shares ≡ n
  pub nonneg : All IsNonneg shares
  pub within : sum_ℤ shares ≤ℤ pos total
  pub close : pos total ≤ℤ sum_ℤ shares +ℤ pos n

pub IsNonneg-of_any {ℓ} :
    {A : Type ℓ} (f : A → ℤ) (xs : List A)
    → any (λ x. ltb_ℤ (f x) (pos 0)) xs ≡ false
    → All IsNonneg (map f xs)
IsNonneg-of_any f [] h = tt
IsNonneg-of_any f (x ∷ xs) h = ground (arith, IsNonneg-of_any f xs)

module _ {ℓ} {A : Type ℓ} (total whole : ℕ) (f : A → ℕ) where
  abbrev part : A → ℕ
  part x = part_of total (f x) whole

  parts_bounds :
      (xs : List A)
      → 0 < whole
      → let s = sum (map part xs) in
        (s * whole ≤ total * sum (map f xs)) × (total * sum (map f xs) ≤ (s + length xs) * whole)
  parts_bounds [] h = omega arith
  parts_bounds (x ∷ xs) h = omega (arith, parts_bounds xs h, part_of_floor total (f x) whole h)

  sum_ℤ-parts : (xs : List A) → sum_ℤ (map (λ x. pos (part x)) xs) ≡ pos (sum (map part xs))
  sum_ℤ-parts [] = refl
  sum_ℤ-parts (x ∷ xs) = rw (sum_ℤ-parts xs) (omega int_laws)

  IsNonneg-parts : (xs : List A) → All IsNonneg (map (λ x. pos (part x)) xs)
  IsNonneg-parts [] = tt
  IsNonneg-parts (x ∷ xs) = (omega arith, IsNonneg-parts xs)

  -- Parts of the whole are almost the total.
  pub parts-IsAlmost :
      (xs : List A)
      → 0 < whole
      → sum (map f xs) ≡ whole
      → IsAlmost total (length xs) (map (λ x. pos (part x)) xs)
  parts-IsAlmost xs h e =
      let b = parts_bounds xs h in
      let low : sum (map part xs) * whole ≤ total * whole = rw e at b.0 in
      let high : total * whole ≤ (sum (map part xs) + length xs) * whole = rw e at b.1 in
      let less : sum (map part xs) ≤ total = le_of_mul-le-mul_right low h in
      let more : total ≤ sum (map part xs) + length xs = le_of_mul-le-mul_right high h in
      record {
        counted = length-map _ xs;
        nonneg = IsNonneg-parts xs;
        within = rw (sum_ℤ-parts xs) (omega arith);
        close = rw (sum_ℤ-parts xs) (omega int_laws);
      }

module _ (scale rest whole : ℕ) where
  -- What the rows that are not pinned take.
  abbrev rest_part : SplitRow → ℕ
  rest_part row = if is_none row.input then part_of rest row.units whole else 0

  rest_bounds :
      (rows : List SplitRow)
      → 0 < whole
      → let s = sum (map rest_part rows) in
        (s * whole ≤ rest * rest_units rows) × (rest * rest_units rows ≤ (s + length rows) * whole)
  rest_bounds [] h = omega arith
  rest_bounds (row ∷ rows) h =
      ground (arith, rest_bounds rows h, part_of_floor rest row.units whole h)

  sum_ℤ-rest_share :
      (rows : List SplitRow)
      → sum_ℤ (map (rest_share scale rest whole) rows)
        ≡ sum_ℤ (map (pinned_or_zero scale) rows) +ℤ pos (sum (map rest_part rows))
  sum_ℤ-rest_share [] = omega int_laws
  sum_ℤ-rest_share (row ∷ rows) = grind (int_laws, sum_ℤ-rest_share rows)

  IsNonneg-rest_share :
      (rows : List SplitRow)
      → All IsNonneg (map (pinned_or_zero scale) rows)
      → All IsNonneg (map (rest_share scale rest whole) rows)
  IsNonneg-rest_share [] h = tt
  IsNonneg-rest_share (row ∷ rows) h = ground (arith, IsNonneg-rest_share rows)

  -- Pinned shares that fit, with the rest spread over the others, are almost the total.
  pub rest-IsAlmost :
      (rows : List SplitRow) (total : ℕ)
      → 0 < whole
      → rest_units rows ≡ whole
      → All IsNonneg (map (pinned_or_zero scale) rows)
      → let pinned = sum_ℤ (map (pinned_or_zero scale) rows) in
        pos_part pinned + rest ≡ total + neg_part pinned
        → IsAlmost total (length rows) (map (rest_share scale rest whole) rows)
  rest-IsAlmost rows total h e n t =
      let b = rest_bounds rows h in
      let low : sum (map rest_part rows) * whole ≤ rest * whole = rw e at b.0 in
      let high : rest * whole ≤ (sum (map rest_part rows) + length rows) * whole = rw e at b.1 in
      let less : sum (map rest_part rows) ≤ rest = le_of_mul-le-mul_right low h in
      let more : rest ≤ sum (map rest_part rows) + length rows = le_of_mul-le-mul_right high h in
      record {
        counted = length-map _ rows;
        nonneg = IsNonneg-rest_share rows n;
        within = rw (sum_ℤ-rest_share rows) (omega int_laws);
        close = rw (sum_ℤ-rest_share rows) (omega int_laws);
      }
