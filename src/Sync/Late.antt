-- ===== src/Sync/Late.antt =====
-- What the first rows of several sorted arrays are: src/app/services/SyncService.ts asks each source for
-- one row more than a page holds.
use lag_money_manager.Prelude.{
  ℕ, zero, suc, ◌≤◌, true, false, ◌≡◌, refl, ap, sym, ◌∙◌, List, [], ◌∷◌, ◌++◌, length, take, map,
  All, arith, Bool-cases, inl, inr,
}
use mathlib.Core.Path.{subst}
use lag_money_manager.Sorting.{insert}
use lag_money_manager.Sync.Feed.{concat}
use lag_money_manager.Sync.Inserts.{Place, lt, put, put_behind, lt_asym, lt_antisym}
use lag_money_manager.Sync.Merge.{
  sorted, inserts, IsSorted, IsSorted-put, IsSorted-sorted, not_behind, not_behind-put,
  inserts-append, inserts-sorted, sorted-append, take-inserts,
}

pub lt_le_trans : (x z y : Place) → lt x z ≡ true → lt y z ≡ false → lt x y ≡ true
lt_le_trans x z y h k = ground arith

All-behind :
    (x z : Place) (zs : List Place)
    → lt x z ≡ true
    → All (λ y. lt y z ≡ false) zs
    → not_behind x zs ≡ 0
All-behind x z [] h a = refl
All-behind x z (y ∷ ys) h a = rw (lt_le_trans x z y h a.0) (All-behind x z ys h a.1)

put_first : (x : Place) (zs : List Place) → All (λ y. lt y x ≡ false) zs → put x zs ≡ x ∷ zs
unfolding insert
put_first x [] a = refl
put_first x (z ∷ zs) a = rw a.0

-- A row that n rows are not behind does not come among the first n.
take-put_late :
    (n : ℕ) (x : Place) (zs : List Place)
    → IsSorted zs
    → n ≤ not_behind x zs
    → take n (put x zs) ≡ take n zs
take-put_late zero x zs s h = refl
take-put_late (suc n) x [] s h = let f : ⊥ = omega arith in absurd f
take-put_late (suc n) x (z ∷ zs) s h = elim (Bool-cases (lt z x)) [
  | inl e ↦ rw (put_behind x z zs e) (
      ap (λ rest. z ∷ rest)
        (take-put_late n x zs s.1 (let k = rw (lt_asym z x e) at h in omega (arith, k))))
  | inr e ↦ elim (Bool-cases (lt x z)) [
    | inl f ↦
        (let none_there = All-behind x z zs f s.0 in
          let k = rw (f, none_there) at h in let g : ⊥ = omega (arith, k) in absurd g)
    | inr f ↦
        (let same = lt_antisym x z f e in
          let k = rw f at h in
          let first = put_first z zs s.0 in
          let rest =
            take-put_late n z zs s.1 (subst (λ w. n ≤ not_behind w zs) same (omega (arith, k))) in
          rw (same, put_first z (z ∷ zs) (subst (λ w. lt z w ≡ false) same e, s.0))
            (ap (λ rest. z ∷ rest) (ap (take n) (sym first) ∙ rest)))
  ]
]

IsSorted-inserts : (xs ys : List Place) → IsSorted ys → IsSorted (inserts xs ys)
IsSorted-inserts [] ys h = h
IsSorted-inserts (x ∷ xs) ys h = IsSorted-put x (inserts xs ys) (IsSorted-inserts xs ys h)

more_not_behind : (x y : Place) (zs : List Place) → not_behind x zs ≤ not_behind x (put y zs)
more_not_behind x y zs = ground (arith, not_behind-put x y zs)

not_behind-inserts :
    (x : Place) (xs ys : List Place) → not_behind x ys ≤ not_behind x (inserts xs ys)
not_behind-inserts x [] ys = omega arith
not_behind-inserts x (y ∷ xs) ys =
    omega (arith, not_behind-inserts x xs ys, more_not_behind x y (inserts xs ys))

counted :
    (x : Place) (xs ys : List Place)
    → All (λ y. lt x y ≡ false) xs
    → length xs ≤ not_behind x (inserts xs ys)
counted x [] ys a = omega arith
counted x (y ∷ xs) ys a =
    let e = not_behind-put x y (inserts xs ys) in
    let k = rw a.0 at e in omega (arith, k, counted x xs ys a.1)

-- Late rows can be left out.
drop_late :
    (n : ℕ) (xs ws : List Place)
    → IsSorted ws
    → All (λ x. n ≤ not_behind x ws) xs
    → take n (inserts xs ws) ≡ take n ws
drop_late n [] ws s a = refl
drop_late n (x ∷ xs) ws s a =
    take-put_late n x (inserts xs ws) (IsSorted-inserts xs ws s)
      (omega (arith, a.0, not_behind-inserts x xs ws))
    ∙ drop_late n xs ws s a.1

abbrev pub drop : ℕ → List Place → List Place
drop zero xs = xs
drop (suc n) [] = []
drop (suc n) (x ∷ xs) = drop n xs

pub take-drop : (n : ℕ) (xs : List Place) → take n xs ++ drop n xs ≡ xs
take-drop zero xs = refl
take-drop (suc n) [] = refl
take-drop (suc n) (x ∷ xs) = ap (λ rest. x ∷ rest) (take-drop n xs)

All-drop : (P : Place → Type 0) (n : ℕ) (xs : List Place) → All P xs → All P (drop n xs)
All-drop P zero xs a = a
All-drop P (suc n) [] a = tt
All-drop P (suc n) (x ∷ xs) a = All-drop P n xs a.1

All-with :
    (P Q R : Place → Type 0) (xs : List Place)
    → ((x : Place) → P x → Q x → R x)
    → All P xs
    → All Q xs
    → All R xs
All-with P Q R [] f a b = tt
All-with P Q R (x ∷ xs) f a b = (f x a.0 b.0, All-with P Q R xs f a.1 b.1)

-- The first n rows, when there are more, are n, and not behind a later one.
abbrev IsLate : ℕ → List Place → Place → Type 0
IsLate n first x = All (λ y. lt x y ≡ false) first × (length first ≡ n)

IsLate-start : (xs : List Place) → All (IsLate 0 []) xs
IsLate-start [] = tt
IsLate-start (x ∷ xs) = ((tt, refl), IsLate-start xs)

IsLate-rows : (n : ℕ) (xs : List Place) → IsSorted xs → All (IsLate n (take n xs)) (drop n xs)
IsLate-rows zero xs s = IsLate-start xs
IsLate-rows (suc n) [] s = tt
IsLate-rows (suc n) (x ∷ xs) s =
    All-with (λ y. lt y x ≡ false) (IsLate n (take n xs)) (IsLate (suc n) (x ∷ take n xs))
      (drop n xs) (λ y p q. ((p, q.0), ap suc q.1)) (All-drop (λ y. lt y x ≡ false) n xs s.0)
      (IsLate-rows n xs s.1)

All-map : (P Q : Place → Type 0) (xs : List Place) → ((x : Place) → P x → Q x) → All P xs → All Q xs
All-map P Q [] f a = tt
All-map P Q (x ∷ xs) f a = (f x a.0, All-map P Q xs f a.1)

-- Of a sorted array, the rows after the first n do not matter for the first n of a merge.
take-cut :
    (n : ℕ) (xs ys : List Place)
    → IsSorted xs
    → IsSorted ys
    → take n (inserts (take n xs) ys) ≡ take n (inserts xs ys)
take-cut n xs ys s t = sym (
    ap (λ zs. take n (inserts zs ys)) (sym (take-drop n xs))
    ∙ ap (take n) (inserts-append (take n xs) (drop n xs) ys)
    ∙ drop_late n (drop n xs) (inserts (take n xs) ys) (IsSorted-inserts (take n xs) ys t) (
        All-map (IsLate n (take n xs)) (λ x. n ≤ not_behind x (inserts (take n xs) ys)) (drop n xs)
          (λ x l. let c = counted x (take n xs) ys l.0 in omega (arith, c, l.1))
          (IsLate-rows n xs s)))

-- The first n rows of all sources are among the first n of each.
pub take-sorted-concat :
    (n : ℕ) (yss : List (List Place))
    → take n (sorted (concat (map (λ ys. take n (sorted ys)) yss))) ≡ take n (sorted (concat yss))
take-sorted-concat n [] = refl
take-sorted-concat n (ys ∷ yss) =
    let cut = concat (map (λ zs. take n (sorted zs)) yss) in
    ap (take n) (sorted-append (take n (sorted ys)) cut)
    ∙ sym (take-inserts n (take n (sorted ys)) (sorted cut))
    ∙ ap (λ zs. take n (inserts (take n (sorted ys)) zs)) (take-sorted-concat n yss)
    ∙ take-inserts n (take n (sorted ys)) (sorted (concat yss))
    ∙ take-cut n (sorted ys) (sorted (concat yss)) (IsSorted-sorted ys)
        (IsSorted-sorted (concat yss))
    ∙ ap (take n) (inserts-sorted ys (sorted (concat yss)) ∙ sym (sorted-append ys (concat yss)))
