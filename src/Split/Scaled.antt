-- ===== src/Split/Scaled.antt =====
-- `resolveShares` of src/shared/splitShares.ts in hundredths, after the division by the scale.
use mathlib.Core.Path.{subst}
use lag_money_manager.Prelude.{
  ℕ, ◌≡◌, refl, true, inl, inr, Option, List, [], ◌∷◌, map, arith, length, All, ◌∙◌, length-map,
}
use Prim.Native.String.{String}
use lag_money_manager.Prelude.Int.{ℤ, pos, negsuc, ◌+ℤ◌, sum_ℤ}
use lag_money_manager.Errors.{ok, >>=-eq-ok, ok_inj}
use lag_money_manager.Money.{
  to_minor, of_minor, to_minor_hundred, of_minor-to_minor_one, currency_decimals,
  currency_decimals_cases, is_whole_minor,
}
use lag_money_manager.Split.{SplitInput, resolve_minor, resolve_shares, scale_of}
use lag_money_manager.Split.Sums.{IsNonneg}
use lag_money_manager.Split.Laws.{IsSplit, resolve_minor-IsSplit}

of_minor_hundred : (a : ℤ) → of_minor 100 a ≡ a
unfolding of_minor
of_minor_hundred (pos n) = ground arith
of_minor_hundred (negsuc n) = ground arith

of_minor_one-+ℤ : (a b : ℤ) → of_minor 1 (a +ℤ b) ≡ of_minor 1 a +ℤ of_minor 1 b
unfolding of_minor ◌+ℤ◌
of_minor_one-+ℤ a b = ground arith

of_minor-IsNonneg :
    (scale : ℕ) (xs : List ℤ) → All IsNonneg xs → All IsNonneg (map (of_minor scale) xs)
unfolding of_minor
of_minor-IsNonneg scale [] h = tt
of_minor-IsNonneg scale (pos n ∷ xs) h = (omega arith, of_minor-IsNonneg scale xs h.1)
of_minor-IsNonneg scale (negsuc n ∷ xs) h = absurd (omega (arith, h.0))

sum_ℤ-of_minor_one : (xs : List ℤ) → sum_ℤ (map (of_minor 1) xs) ≡ of_minor 1 (sum_ℤ xs)
unfolding of_minor
sum_ℤ-of_minor_one [] = refl
sum_ℤ-of_minor_one (x ∷ xs) = rw (of_minor_one-+ℤ, sum_ℤ-of_minor_one xs)

sum_ℤ-of_minor_hundred : (xs : List ℤ) → sum_ℤ (map (of_minor 100) xs) ≡ sum_ℤ xs
sum_ℤ-of_minor_hundred [] = refl
sum_ℤ-of_minor_hundred (x ∷ xs) = rw (of_minor_hundred, sum_ℤ-of_minor_hundred xs)

-- The shares of an amount that is a whole number of minor units, in the amount's own unit, add up to it.
sum_ℤ-scaled :
    (currency : Option String) (total : ℤ) (shares : List ℤ)
    → is_whole_minor total (currency_decimals currency) ≡ true
    → sum_ℤ shares ≡ to_minor total (scale_of currency)
    → sum_ℤ (map (of_minor (scale_of currency)) shares) ≡ total
unfolding is_whole_minor
sum_ℤ-scaled currency total shares p e = elim (currency_decimals_cases currency) [
  | inl d ↦
      let q : is_whole_minor total 0 ≡ true = rw d at p in
      let t : sum_ℤ shares ≡ to_minor total 1 = rw d at e in
      rw d (
        sum_ℤ-of_minor_one shares
        ∙ (rw t (of_minor-to_minor_one total (ground arith) (ground arith))))
  | inr d ↦
      let t : sum_ℤ shares ≡ to_minor total 100 = rw d at e in
      rw d (sum_ℤ-of_minor_hundred shares ∙ t ∙ to_minor_hundred total)
]

-- If the amount is a whole number of minor units of its currency, a split that resolves has one share
-- for each row, no share is negative, and the shares add up to the amount exactly.
pub resolve_shares_exact :
    (i : SplitInput) (shares : List ℤ)
    → is_whole_minor i.total (currency_decimals i.currency) ≡ true
    → resolve_shares i ≡ ok shares
    → IsSplit i.total (length i.rows) shares
unfolding resolve_shares
resolve_shares_exact i shares p h =
    let scale = scale_of i.currency in
    let (minor, given, e) = >>=-eq-ok (resolve_minor i scale) _ h in
    let s = resolve_minor-IsSplit i scale minor given in
    subst (IsSplit i.total (length i.rows)) (ok_inj e) (record {
      counted = length-map (of_minor scale) minor ∙ s.counted;
      nonneg = of_minor-IsNonneg scale minor s.nonneg;
      exact_sum = sum_ℤ-scaled i.currency i.total minor p s.exact_sum;
    })
