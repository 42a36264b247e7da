-- ===== src/Sorting.antt =====
-- `Array.prototype.sort` with a comparator, which is stable, and sums over a sorted array.
use Prim.Native.Nat.{Ordering}
use lag_money_manager.Prelude.{
  ℕ, ◌+◌, ◌≡◌, refl, Bool, true, false, List, [], ◌∷◌, map, arith, if◌then◌else◌, length, sum, All,
  Bool-cases, inl, inr,
}

-- `a || b` on the results of two comparators.
abbrev pub or_else : Ordering → Ordering → Ordering
or_else Ordering.lt o = Ordering.lt
or_else Ordering.eq o = o
or_else Ordering.gt o = Ordering.gt

abbrev pub is_less : Ordering → Bool
is_less Ordering.lt = true
is_less _ = false

module _ {ℓ} {A : Type ℓ} (order : A → A → Ordering) where
  -- Before the first element that the comparator does not put in front.
  unfoldable pub insert : A → List A → List A
  insert x [] = x ∷ []
  insert x (y ∷ ys) = if is_less (order y x) then y ∷ insert x ys else x ∷ y ∷ ys

  unfoldable pub sort : List A → List A
  sort [] = []
  sort (x ∷ xs) = insert x (sort xs)

  sum-insert : (f : A → ℕ) (x : A) (xs : List A) → sum (map f (insert x xs)) ≡ f x + sum (map f xs)
  unfolding insert
  sum-insert f x [] = refl
  sum-insert f x (y ∷ ys) = ground (arith, sum-insert f x ys)

  -- Sorting changes no sum over the elements.
  pub sum-sort : (f : A → ℕ) (xs : List A) → sum (map f (sort xs)) ≡ sum (map f xs)
  unfolding sort
  sum-sort f [] = refl
  sum-sort f (x ∷ xs) = omega (arith, sum-insert f x (sort xs), sum-sort f xs)

  length-insert : (x : A) (xs : List A) → length (insert x xs) ≡ length (x ∷ xs)
  unfolding insert
  length-insert x [] = refl
  length-insert x (y ∷ ys) = ground (arith, length-insert x ys)

  pub length-sort : (xs : List A) → length (sort xs) ≡ length xs
  unfolding sort
  length-sort [] = refl
  length-sort (x ∷ xs) = omega (arith, length-insert x (sort xs), length-sort xs)

  All-insert {κ} : (P : A → Type κ) (x : A) (xs : List A) → P x → All P xs → All P (insert x xs)
  unfolding insert
  All-insert P x [] p ps = (p, tt)
  All-insert P x (y ∷ ys) p ps = elim (Bool-cases (is_less (order y x))) [
    | inl e ↦ rw e (ps.0, All-insert P x ys p ps.1)
    | inr e ↦ rw e (p, ps)
  ]

  -- What holds of every element holds of every element of the sorted array.
  pub All-sort {κ} : (P : A → Type κ) (xs : List A) → All P xs → All P (sort xs)
  unfolding sort
  All-sort P [] ps = tt
  All-sort P (x ∷ xs) ps = All-insert P x (sort xs) ps.0 (All-sort P xs ps.1)
