-- ===== src/Sync/Merge.antt =====
-- Several sorted arrays that are cut to their first rows, and the first rows of all of them together.
use lag_money_manager.Prelude.{
  ℕ, zero, suc, false, ◌≡◌, refl, ap, sym, ◌∙◌, List, [], ◌∷◌, ◌++◌, take, All, if◌then◌else◌,
  arith, Bool-cases, inl, inr,
}
use lag_money_manager.Sorting.{insert, sort}
use lag_money_manager.Sync.Inserts.{
  Place, place_order, lt, put, take-put, put_comm, le_trans, lt_asym,
}

abbrev pub sorted : List Place → List Place
sorted xs = sort place_order xs

abbrev pub inserts : List Place → List Place → List Place
inserts [] ys = ys
inserts (x ∷ xs) ys = put x (inserts xs ys)

pub sorted-append : (xs ys : List Place) → sorted (xs ++ ys) ≡ inserts xs (sorted ys)
unfolding sort
sorted-append [] ys = refl
sorted-append (x ∷ xs) ys = ap (put x) (sorted-append xs ys)

pub take_twice {ℓ} : {A : Type ℓ} (n : ℕ) (xs : List A) → take n (take n xs) ≡ take n xs
take_twice zero xs = refl
take_twice (suc n) [] = refl
take_twice (suc n) (x ∷ xs) = ap (λ rest. x ∷ rest) (take_twice n xs)

pub take-inserts :
    (n : ℕ) (xs ys : List Place) → take n (inserts xs (take n ys)) ≡ take n (inserts xs ys)
take-inserts n [] ys = take_twice n ys
take-inserts n (x ∷ xs) ys =
    sym (take-put n x (inserts xs (take n ys)))
    ∙ ap (λ zs. take n (put x zs)) (take-inserts n xs ys)
    ∙ take-put n x (inserts xs ys)

put-inserts : (x : Place) (xs ys : List Place) → put x (inserts xs ys) ≡ inserts xs (put x ys)
put-inserts x [] ys = refl
put-inserts x (y ∷ xs) ys = put_comm x y (inserts xs ys) ∙ ap (put y) (put-inserts x xs ys)

inserts-put : (x : Place) (xs ys : List Place) → inserts (put x xs) ys ≡ put x (inserts xs ys)
unfolding insert
inserts-put x [] ys = refl
inserts-put x (y ∷ xs) ys = elim (Bool-cases (lt y x)) [
  | inl e ↦ rw e (ap (put y) (inserts-put x xs ys) ∙ put_comm y x (inserts xs ys))
  | inr e ↦ rw e refl
]

pub inserts-sorted : (xs ys : List Place) → inserts (sorted xs) ys ≡ inserts xs ys
unfolding sort
inserts-sorted [] ys = refl
inserts-sorted (x ∷ xs) ys = inserts-put x (sorted xs) ys ∙ ap (put x) (inserts-sorted xs ys)

pub inserts-append : (xs ys zs : List Place) → inserts (xs ++ ys) zs ≡ inserts ys (inserts xs zs)
inserts-append [] ys zs = refl
inserts-append (x ∷ xs) ys zs =
    ap (put x) (inserts-append xs ys zs) ∙ put-inserts x ys (inserts xs zs)

-- No row is behind one that follows it.
abbrev pub IsSorted : List Place → Type 0
IsSorted [] = Unit
IsSorted (x ∷ xs) = All (λ y. lt y x ≡ false) xs × IsSorted xs

All-put : (P : Place → Type 0) (x : Place) (xs : List Place) → P x → All P xs → All P (put x xs)
unfolding insert
All-put P x [] p ps = (p, tt)
All-put P x (y ∷ ys) p ps = elim (Bool-cases (lt y x)) [
  | inl e ↦ rw e (ps.0, All-put P x ys p ps.1)
  | inr e ↦ rw e (p, ps)
]

All-behind :
    (x y : Place) (zs : List Place)
    → lt y x ≡ false
    → All (λ z. lt z y ≡ false) zs
    → All (λ z. lt z x ≡ false) zs
All-behind x y [] h a = tt
All-behind x y (z ∷ zs) h a = (le_trans x y z h a.0, All-behind x y zs h a.1)

pub IsSorted-put : (x : Place) (xs : List Place) → IsSorted xs → IsSorted (put x xs)
unfolding insert
IsSorted-put x [] h = (tt, tt)
IsSorted-put x (y ∷ ys) h = elim (Bool-cases (lt y x)) [
  | inl e ↦ rw e (All-put (λ z. lt z y ≡ false) x ys (lt_asym y x e) h.0, IsSorted-put x ys h.1)
  | inr e ↦ rw e ((e, All-behind x y ys e h.0), h)
]

pub IsSorted-sorted : (xs : List Place) → IsSorted (sorted xs)
unfolding sort
IsSorted-sorted [] = tt
IsSorted-sorted (x ∷ xs) = IsSorted-put x (sorted xs) (IsSorted-sorted xs)

-- How many rows are not behind x.
abbrev pub not_behind : Place → List Place → ℕ
not_behind x [] = 0
not_behind x (y ∷ ys) = let rest = not_behind x ys in if lt x y then rest else suc rest

pub not_behind-put :
    (x y : Place) (zs : List Place) → not_behind x (put y zs) ≡ not_behind x (y ∷ zs)
unfolding insert
not_behind-put x y [] = refl
not_behind-put x y (z ∷ zs) = let ih = not_behind-put x y zs in grind (arith, ih)
