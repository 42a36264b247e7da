-- ===== src/Imputation/Cover.antt =====
-- The inner loop of `impute` in src/shared/sharedImputation.ts: one payment over the lines it visits.
use native.Mathlib.Decide.{ℕ_discrete}
use mathlib.Core.Path.{subst}
use lag_money_manager.Prelude.{
  sym, ℕ, zero, suc, ◌+◌, ◌-◌, ◌≤◌, ◌<◌, ◌≡◌, refl, ◌≢◌, List, [], ◌∷◌, ◌++◌, min, arith, length,
  All, sum, ap,
}
use lag_money_manager.Imputation.{at, lower, range_from, cover}

pub sum-lower : (xs : List ℕ) (i c : ℕ) → c ≤ at xs i → sum (lower xs i c) + c ≡ sum xs
sum-lower [] i c h = omega arith
sum-lower (x ∷ xs) zero c h = omega arith
sum-lower (x ∷ xs) (suc i) c h = omega (arith, sum-lower xs i c h)

pub length-lower : (xs : List ℕ) (i c : ℕ) → length (lower xs i c) ≡ length xs
length-lower [] i c = refl
length-lower (x ∷ xs) zero c = refl
length-lower (x ∷ xs) (suc i) c = omega (arith, length-lower xs i c)

pub at-lower-le : (xs : List ℕ) (i c j : ℕ) → at (lower xs i c) j ≤ at xs j
at-lower-le [] i c j = omega arith
at-lower-le (x ∷ xs) zero c zero = omega arith
at-lower-le (x ∷ xs) zero c (suc j) = omega arith
at-lower-le (x ∷ xs) (suc i) c zero = omega arith
at-lower-le (x ∷ xs) (suc i) c (suc j) = at-lower-le xs i c j

pub at-lower_self : (xs : List ℕ) (i c : ℕ) → at (lower xs i c) i ≡ at xs i - c
at-lower_self [] i c = omega arith
at-lower_self (x ∷ xs) zero c = refl
at-lower_self (x ∷ xs) (suc i) c = at-lower_self xs i c

pub at-lower_ne : (xs : List ℕ) (i c j : ℕ) → i ≢ j → at (lower xs i c) j ≡ at xs j
at-lower_ne [] i c j h = refl
at-lower_ne (x ∷ xs) zero c zero h = absurd (h refl)
at-lower_ne (x ∷ xs) zero c (suc j) h = refl
at-lower_ne (x ∷ xs) (suc i) c zero h = refl
at-lower_ne (x ∷ xs) (suc i) c (suc j) h = at-lower_ne xs i c j (λ e. h (ap suc e))

-- No money is made or lost: what the lines no longer owe is what the payment no longer has.
pub cover_conserves :
    (is : List ℕ) (opened : List ℕ) (left : ℕ)
    → let (opened', left') = cover is opened left in
      (sum opened' + left ≡ sum opened + left') × (left' ≤ left)
unfolding cover
cover_conserves [] opened left = omega arith
cover_conserves (i ∷ is) opened left =
    let c = min (at opened i) left in
    ground (arith, cover_conserves is (lower opened i c) (left - c), sum-lower opened i c)

pub length-cover :
    (is : List ℕ) (opened : List ℕ) (left : ℕ) → length (cover is opened left).0 ≡ length opened
unfolding cover
length-cover [] opened left = refl
length-cover (i ∷ is) opened left =
    let c = min (at opened i) left in
    ground (arith, length-cover is (lower opened i c) (left - c), length-lower opened i c)

-- What is open never grows.
pub cover_le :
    (is : List ℕ) (opened : List ℕ) (left j : ℕ) → at (cover is opened left).0 j ≤ at opened j
unfolding cover
cover_le [] opened left j = omega arith
cover_le (i ∷ is) opened left j =
    let c = min (at opened i) left in
    ground (arith, cover_le is (lower opened i c) (left - c) j, at-lower-le opened i c j)

pub cover_step :
    (i : ℕ) (is opened : List ℕ) (left : ℕ)
    → 0 < left
    → let c = min (at opened i) left in
      cover (i ∷ is) opened left ≡ cover is (lower opened i c) (left - c)
unfolding cover
cover_step i is opened left h = ground arith

pub cover_spent : (is opened : List ℕ) → cover is opened 0 ≡ (opened, 0)
unfolding cover
cover_spent [] opened = refl
cover_spent (i ∷ is) opened = refl

-- A payment with money left has closed every line that it visited.
pub cover_closes :
    (is opened : List ℕ) (left : ℕ)
    → 0 < (cover is opened left).1
    → All (λ i. at (cover is opened left).0 i ≡ 0) is
cover_closes [] opened left h = tt
cover_closes (i ∷ is) opened zero h = absurd (omega (arith, rw cover_spent at h))
cover_closes (i ∷ is) opened (suc n) h =
    let left : ℕ = suc n in
    let c = min (at opened i) left in
    let e = cover_step i is opened left (omega arith) in
    let h' : 0 < (cover is (lower opened i c) (left - c)).1 = subst (λ r. 0 < r.1) e h in
    let closed : at (cover is (lower opened i c) (left - c)).0 i ≡ 0 = omega (
      arith,
      cover_le is (lower opened i c) (left - c) i,
      at-lower_self opened i c,
      cover_conserves is (lower opened i c) (left - c),
    ) in
    subst (λ r. All (λ k. at r.0 k ≡ 0) (i ∷ is)) (sym e)
      (closed, cover_closes is (lower opened i c) (left - c) h')

pub All-range_from {ℓ} :
    (P : ℕ → Type ℓ) (k n j : ℕ) → All P (range_from k n) → k ≤ j → j < k + n → P j
All-range_from P k zero j a h l = absurd (omega arith)
All-range_from P k (suc n) j a h l = elim (ℕ_discrete k j) [
  | yes e ↦ subst P e a.0
  | no e ↦ All-range_from P (suc k) n j a.1 (omega arith) (omega arith)
]

pub All-append_right {ℓ κ} :
    {A : Type ℓ} (P : A → Type κ) (xs ys : List A) → All P (xs ++ ys) → All P ys
All-append_right P [] ys a = a
All-append_right P (x ∷ xs) ys a = All-append_right P xs ys a.1

pub sum_zero : (xs : List ℕ) → ((j : ℕ) → j < length xs → at xs j ≡ 0) → sum xs ≡ 0
sum_zero [] h = refl
sum_zero (x ∷ xs) h = omega (arith, h 0 (omega arith), sum_zero xs (λ j l. h (suc j) (omega arith)))
