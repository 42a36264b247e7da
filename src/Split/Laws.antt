-- ===== src/Split/Laws.antt =====
-- What `resolveShares` of src/shared/splitShares.ts promises.
use mathlib.Core.Path.{subst}
use lag_money_manager.Prelude.{
  ℕ, zero, suc, ◌<◌, ◌≡◌, refl, false, List, [], ◌∷◌, arith, ltb, length, any, All, ◌∙◌,
}
use lag_money_manager.Prelude.Int.{ℤ, pos, pos_part, ◌+ℤ◌, sum_ℤ, int_laws}
use lag_money_manager.Errors.{ok, >>=-eq-ok, ok_inj}
use lag_money_manager.Money.{to_minor}
use lag_money_manager.Split.{
  SplitInput, add_at, settle_payer, assert_shape, assert_inputs, mode_shares, resolve_minor,
}
use lag_money_manager.Split.Sums.{IsAlmost, IsNonneg}
use lag_money_manager.Split.Modes.{mode-IsAlmost}

sum_ℤ-add_at : (xs : List ℤ) (i : ℕ) (d : ℤ) → i < length xs → sum_ℤ (add_at xs i d) ≡ sum_ℤ xs +ℤ d
sum_ℤ-add_at [] i d h = absurd (omega arith)
sum_ℤ-add_at (x ∷ xs) zero d h = omega int_laws
sum_ℤ-add_at (x ∷ xs) (suc i) d h = rw (sum_ℤ-add_at xs i d (omega arith)) (omega int_laws)

IsNonneg-add_at :
    (xs : List ℤ) (i : ℕ) (d : ℤ) → IsNonneg d → All IsNonneg xs → All IsNonneg (add_at xs i d)
IsNonneg-add_at [] i d h a = tt
IsNonneg-add_at (x ∷ xs) zero d h a = (omega int_laws, a.1)
IsNonneg-add_at (x ∷ xs) (suc i) d h a = (a.0, IsNonneg-add_at xs i d h a.1)

length-add_at : (xs : List ℤ) (i : ℕ) (d : ℤ) → length (add_at xs i d) ≡ length xs
length-add_at [] i d = refl
length-add_at (x ∷ xs) zero d = refl
length-add_at (x ∷ xs) (suc i) d = omega (arith, length-add_at xs i d)

-- What every resolved split is: as many shares as rows, none of them negative, and the total in
-- minor units exactly.
pub record IsSplit (total : ℤ) (n : ℕ) (shares : List ℤ) : Type 0 where
  pub counted : length shares ≡ n
  pub nonneg : All IsNonneg shares
  pub exact_sum : sum_ℤ shares ≡ total

settle_payer-IsSplit :
    (total n payer : ℕ) (shares : List ℤ)
    → payer < n
    → IsAlmost total n shares
    → IsSplit (pos total) n (settle_payer total payer shares)
settle_payer-IsSplit total n payer shares p a =
    let c = a.counted in
    let w = a.within in
    record {
      counted = length-add_at shares payer _ ∙ a.counted;
      nonneg = IsNonneg-add_at shares payer _ (omega int_laws) a.nonneg;
      exact_sum = sum_ℤ-add_at shares payer _ (omega arith) ∙ omega int_laws;
    }

-- What `assert_shape` has checked when it lets a split through.
pub record IsShaped (i : SplitInput) (scale : ℕ) : Type 0 where
  pub payer : i.payer_index < length i.rows
  pub heads : any (λ row. ltb row.units 1) i.rows ≡ false
  pub positive : to_minor i.total scale ≡ pos (pos_part (to_minor i.total scale))
  pub inputs : assert_inputs i.mode i.rows ≡ ok tt

assert_shape-IsShaped :
    (i : SplitInput) (scale : ℕ) → assert_shape i scale ≡ ok tt → IsShaped i scale
unfolding assert_shape
assert_shape-IsShaped i scale h = ground arith

-- A split that resolves has one share for each row, no share is negative, whoever pays, and the
-- shares add up to the total in minor units exactly.
pub resolve_minor-IsSplit :
    (i : SplitInput) (scale : ℕ) (shares : List ℤ)
    → resolve_minor i scale ≡ ok shares
    → IsSplit (to_minor i.total scale) (length i.rows) shares
unfolding resolve_minor
resolve_minor-IsSplit i scale shares h =
    let total = pos_part (to_minor i.total scale) in
    let (u, shaped, rest) = >>=-eq-ok (assert_shape i scale) _ h in
    let s = assert_shape-IsShaped i scale shaped in
    let (parts, given, e) = >>=-eq-ok (mode_shares i.mode total i.rows scale) _ rest in
    let p = s.payer in
    let a = mode-IsAlmost i.mode total i.rows scale parts (omega arith) s.heads s.inputs given in
    rw s.positive (
      subst (IsSplit (pos total) (length i.rows)) (ok_inj e)
        (settle_payer-IsSplit total (length i.rows) i.payer_index parts s.payer a))
