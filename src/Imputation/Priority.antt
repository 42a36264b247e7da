-- ===== src/Imputation/Priority.antt =====
-- Which lines a payment reaches first, in `impute` of src/shared/sharedImputation.ts.
use native.Mathlib.Decide.{ℕ_discrete}
use mathlib.Core.Path.{subst}
use lag_money_manager.Prelude.{
  ℕ, zero, suc, ◌-◌, ◌≤◌, ◌<◌, ◌≡◌, refl, sym, ap, ◌∙◌, ◌≢◌, List, [], ◌∷◌, ◌++◌, min, arith, All,
}
use lag_money_manager.Imputation.{at, lower, range_from, cover}
use lag_money_manager.Imputation.Cover.{
  cover_le, cover_step, cover_spent, at-lower_ne, at-lower_self,
}

-- A loop over two lists of lines is two loops.
pub cover-append :
    (is js opened : List ℕ) (left : ℕ)
    → let r = cover is opened left in cover (is ++ js) opened left ≡ cover js r.0 r.1
unfolding cover
cover-append [] js opened left = refl
cover-append (i ∷ is) js opened zero = sym (cover_spent js opened)
cover-append (i ∷ is) js opened (suc n) =
    let c = min (at opened i) (suc n) in
    let h : 0 < suc n = omega arith in
    cover_step i (is ++ js) opened (suc n) h
    ∙ cover-append is js (lower opened i c) (suc n - c)
    ∙ ap (λ r. cover js r.0 r.1) (sym (cover_step i is opened (suc n) h))

-- A line that is not visited keeps what it owes.
pub cover_untouched :
    (is opened : List ℕ) (left j : ℕ)
    → All (λ i. i ≢ j) is
    → at (cover is opened left).0 j ≡ at opened j
unfolding cover
cover_untouched [] opened left j a = refl
cover_untouched (i ∷ is) opened left j a =
    let c = min (at opened i) left in
    ground
      (arith, cover_untouched is (lower opened i c) (left - c) j a.1, at-lower_ne opened i c j a.0)

-- A payment that lowers a line had money.
pub spent_of_moved :
    (is opened : List ℕ) (left j : ℕ) → at (cover is opened left).0 j < at opened j → 0 < left
spent_of_moved is opened zero j d =
    absurd (omega (arith, subst (λ r. at r.0 j < at opened j) (cover_spent is opened) d))
spent_of_moved is opened (suc n) j d = omega arith

-- Among lines visited in order, one is reached only when those before it are closed.
pub cover_in_order :
    (k n : ℕ) (opened : List ℕ) (left i j : ℕ)
    → k ≤ i
    → i < j
    → at (cover (range_from k n) opened left).0 j < at opened j
    → at (cover (range_from k n) opened left).0 i ≡ 0
unfolding cover
cover_in_order k zero opened left i j h l d = absurd (omega arith)
cover_in_order k (suc m) opened zero i j h l d = absurd (omega arith)
cover_in_order k (suc m) opened (suc n) i j h l d =
    let c = min (at opened k) (suc n) in
    let left = suc n - c in
    let opened' = lower opened k c in
    let rest = range_from (suc k) m in
    let e = cover_step k rest opened (suc n) (omega arith) in
    let moved : at (cover rest opened' left).0 j < at opened j =
      subst (λ r. at r.0 j < at opened j) e d in
    let d' : at (cover rest opened' left).0 j < at opened' j =
      omega (arith, at-lower_ne opened k c j (omega arith)) in
    let first : at (cover rest opened' left).0 k ≡ 0 = omega (
      arith,
      cover_le rest opened' left k,
      at-lower_self opened k c,
      spent_of_moved rest opened' left j d',
    ) in
    subst (λ r. at r.0 i ≡ 0) (sym e)
      (elim (ℕ_discrete k i) [
        | yes f ↦ subst (λ t. at (cover rest opened' left).0 t ≡ 0) f first
        | no f ↦ cover_in_order (suc k) m opened' left i j (omega arith) l d'
      ])
