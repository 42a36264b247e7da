-- ===== src/Split/Modes.antt =====
-- The sum of the shares of each mode of src/shared/splitShares.ts, and the total.
use lag_money_manager.Prelude.{
  ℕ, ◌+◌, ◌<◌, ◌≡◌, refl, false, List, [], ◌∷◌, map, arith, ltb, is_some, length, any, every, All,
  sum, length-map, ap, sym, ◌∙◌,
}
use mathlib.Core.Path.{subst}
use lag_money_manager.Prelude.Int.{
  ℤ, pos, negsuc, pos_part, neg_part, ◌-ℤ◌, ltb_ℤ, sum_ℤ, int_laws, eq_of_parts,
}
use lag_money_manager.Errors.{ok, ok_inj}
use lag_money_manager.Money.{to_minor}
use lag_money_manager.Split.{
  SplitMode, equal, percent, exact, fixed_rest, SplitRow, total_units, rest_units, equal_shares,
  percent_shares, exact_shares, fixed_rest_shares, assert_inputs, mode_shares, differs,
  basis_points, figure, pinned_or_zero, rest_share, part_of,
}
use lag_money_manager.Split.Sums.{
  IsAlmost, IsNonneg, IsNonneg-of_any, parts-IsAlmost, rest-IsAlmost,
}

total_units_pos :
    (rows : List SplitRow)
    → 0 < length rows
    → any (λ row. ltb row.units 1) rows ≡ false
    → 0 < total_units rows
total_units_pos [] h k = absurd (omega arith)
total_units_pos (row ∷ rows) h k = ground arith

rest_units_pos :
    (rows : List SplitRow)
    → every (λ row. is_some row.input) rows ≡ false
    → any (λ row. ltb row.units 1) rows ≡ false
    → 0 < rest_units rows
rest_units_pos [] h k = cc
rest_units_pos (row ∷ rows) h k = ground (arith, rest_units_pos rows)

eq_of_differs : (a b : ℤ) → differs a b ≡ false → a ≡ b
eq_of_differs a b h = eq_of_parts a b (ground arith)

map-id : (xs : List ℤ) → map (λ x. x) xs ≡ xs
map-id [] = refl
map-id (x ∷ xs) = ap (◌∷◌ x) (map-id xs)

sum-pos_part : (xs : List ℤ) → All IsNonneg xs → sum_ℤ xs ≡ pos (sum (map pos_part xs))
sum-pos_part [] a = refl
sum-pos_part (pos n ∷ xs) a = rw (sum-pos_part xs a.1) (omega int_laws)
sum-pos_part (negsuc n ∷ xs) a = absurd (omega (arith, a.0))

pos_sum : (xs : List ℤ) (n : ℕ) → All IsNonneg xs → sum_ℤ xs ≡ pos n → sum (map pos_part xs) ≡ n
pos_sum xs n a e = ap pos_part (sym (sum-pos_part xs a) ∙ e)

rest_of_pinned :
    (total : ℕ) (pinned : ℤ)
    → ltb_ℤ (pos total) pinned ≡ false
    → pos_part pinned + pos_part (pos total -ℤ pinned) ≡ total + neg_part pinned
unfolding ◌-ℤ◌
rest_of_pinned total pinned h = ground arith

module _ (total : ℕ) (rows : List SplitRow) where
  equal-IsAlmost :
      0 < length rows
      → any (λ row. ltb row.units 1) rows ≡ false
      → IsAlmost total (length rows) (equal_shares total rows)
  unfolding equal_shares
  equal-IsAlmost n u =
      parts-IsAlmost total (total_units rows) (λ row. row.units) rows (total_units_pos rows n u)
        refl

  percent-IsAlmost :
      (shares : List ℤ)
      → percent_shares total rows ≡ ok shares
      → IsAlmost total (length rows) shares
  unfolding percent_shares
  percent-IsAlmost shares h =
      let points = basis_points rows in
      let whole : differs (sum_ℤ points) (pos 10000) ≡ false = ground arith in
      let signs : any (λ bp. ltb_ℤ bp (pos 0)) points ≡ false = ground arith in
      let e : map (λ bp. pos (part_of total (pos_part bp) 10000)) points ≡ shares = ground arith in
      let n : All IsNonneg points = rw (map-id points) at (IsNonneg-of_any (λ x. x) points signs) in
      let t : sum (map pos_part points) ≡ 10000 =
        pos_sum points 10000 n (eq_of_differs _ _ whole) in
      subst (IsAlmost total (length rows)) e
        (rw (length-map _ rows) at (parts-IsAlmost total 10000 pos_part points (omega arith) t))

  exact-IsAlmost :
      (scale : ℕ) (shares : List ℤ)
      → exact_shares total rows scale ≡ ok shares
      → IsAlmost total (length rows) shares
  unfolding exact_shares
  exact-IsAlmost scale shares h =
      let figures = map (λ row. to_minor (figure row) scale) rows in
      let whole : differs (sum_ℤ figures) (pos total) ≡ false = ground arith in
      let signs : any (λ share. ltb_ℤ share (pos 0)) figures ≡ false = ground arith in
      let e : figures ≡ shares = ground arith in
      let n : All IsNonneg figures =
        rw (map-id figures) at (IsNonneg-of_any (λ x. x) figures signs) in
      let t = eq_of_differs (sum_ℤ figures) (pos total) whole in
      subst (IsAlmost total (length rows)) e (record {
        counted = length-map _ rows;
        nonneg = n;
        within = rw t (omega arith);
        close = rw t (omega int_laws);
      })

  fixed_rest-IsAlmost :
      (scale : ℕ) (shares : List ℤ)
      → every (λ row. is_some row.input) rows ≡ false
      → any (λ row. ltb row.units 1) rows ≡ false
      → fixed_rest_shares total rows scale ≡ ok shares
      → IsAlmost total (length rows) shares
  unfolding fixed_rest_shares
  fixed_rest-IsAlmost scale shares s u h =
      let pinned = sum_ℤ (map (pinned_or_zero scale) rows) in
      let signs : any (λ row. ltb_ℤ (pinned_or_zero scale row) (pos 0)) rows ≡ false =
        ground arith in
      let fits : ltb_ℤ (pos total) pinned ≡ false = ground arith in
      let rest = pos_part (pos total -ℤ pinned) in
      let e : map (rest_share scale rest (rest_units rows)) rows ≡ shares = ground arith in
      let n = IsNonneg-of_any (pinned_or_zero scale) rows signs in
      subst (IsAlmost total (length rows)) e (
        rest-IsAlmost scale rest (rest_units rows) rows total (rest_units_pos rows s u) refl n
          (rest_of_pinned total pinned fits))

pub mode-IsAlmost :
    (m : SplitMode) (total : ℕ) (rows : List SplitRow) (scale : ℕ) (shares : List ℤ)
    → 0 < length rows
    → any (λ row. ltb row.units 1) rows ≡ false
    → assert_inputs m rows ≡ ok tt
    → mode_shares m total rows scale ≡ ok shares
    → IsAlmost total (length rows) shares
unfolding mode_shares assert_inputs
mode-IsAlmost equal total rows scale shares n u a h =
    subst (IsAlmost total (length rows)) (ok_inj h) (equal-IsAlmost total rows n u)
mode-IsAlmost percent total rows scale shares n u a h = percent-IsAlmost total rows shares h
mode-IsAlmost exact total rows scale shares n u a h = exact-IsAlmost total rows scale shares h
mode-IsAlmost fixed_rest total rows scale shares n u a h =
    fixed_rest-IsAlmost total rows scale shares (ground arith) u h
