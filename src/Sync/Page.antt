-- ===== src/Sync/Page.antt =====
-- One answer of `getChanges` in src/app/services/SyncService.ts, on sorted instants and ids: its last row,
-- the rows up to it and the rows after it.
use lag_money_manager.Prelude.{
  ℕ, zero, suc, Bool, true, false, not, ◌≡◌, refl, ap, sym, ◌∙◌, Option, none, some, List, [], ◌∷◌,
  take, map, length, min, get_elem?, ltb, All, Bool-cases, inl, inr, arith, filter,
}
use mathlib.Core.Path.{subst}
use lag_money_manager.Sync.{ChangeKey}
use lag_money_manager.Sync.Feed.{last_of}
use lag_money_manager.Sync.Inserts.{Place, lt, le_trans, lt_asym}
use lag_money_manager.Sync.Merge.{IsSorted}
use lag_money_manager.Sync.Late.{lt_le_trans, drop}
use lag_money_manager.Sync.Keys.{place_key, All-filter}

-- Each row is before the rows that follow it.
abbrev pub IsStrict : List Place → Type 0
IsStrict [] = Unit
IsStrict (x ∷ xs) = All (λ y. lt x y ≡ true) xs × IsStrict xs

pub IsStrict-filter : (p : Place → Bool) (xs : List Place) → IsStrict xs → IsStrict (filter p xs)
unfolding filter
IsStrict-filter p [] s = tt
IsStrict-filter p (x ∷ xs) s = elim (Bool-cases (p x)) [
  | inl e ↦ rw e (All-filter (λ y. lt x y ≡ true) p xs s.0, IsStrict-filter p xs s.1)
  | inr e ↦ rw e (IsStrict-filter p xs s.1)
]

pub All-take : (P : Place → Type 0) (n : ℕ) (xs : List Place) → All P xs → All P (take n xs)
All-take P zero xs a = tt
All-take P (suc n) [] a = tt
All-take P (suc n) (x ∷ xs) a = (a.0, All-take P n xs a.1)

pub IsStrict-take : (n : ℕ) (xs : List Place) → IsStrict xs → IsStrict (take n xs)
IsStrict-take zero xs s = tt
IsStrict-take (suc n) [] s = tt
IsStrict-take (suc n) (x ∷ xs) s = (All-take (λ y. lt x y ≡ true) n xs s.0, IsStrict-take n xs s.1)

pub longer : (n : ℕ) (xs : List Place) → ltb n (length (take (suc n) xs)) ≡ ltb n (length xs)
longer zero [] = refl
longer zero (x ∷ xs) = ground arith
longer (suc n) [] = refl
longer (suc n) (x ∷ xs) = let ih = longer n xs in ground (arith, ih)

-- Row n of x ∷ xs, or its last row when it has fewer.
abbrev pub nth : Place → ℕ → List Place → Place
nth x zero xs = x
nth x (suc n) [] = x
nth x (suc n) (y ∷ ys) = nth y n ys

abbrev pub page_last : ℕ → List Place → Option Place
page_last zero xs = none
page_last (suc n) [] = none
page_last (suc n) (x ∷ xs) = some (nth x n xs)

nth-take : (x : Place) (n : ℕ) (xs : List Place) → nth x n (take (suc n) xs) ≡ nth x n xs
nth-take x zero xs = refl
nth-take x (suc n) [] = refl
nth-take x (suc n) (y ∷ ys) = nth-take y n ys

pub page_last-take : (n : ℕ) (xs : List Place) → page_last n (take (suc n) xs) ≡ page_last n xs
page_last-take zero xs = refl
page_last-take (suc n) [] = refl
page_last-take (suc n) (x ∷ xs) = ap some (nth-take x n xs)

abbrev pub key_option : Option Place → Option ChangeKey
key_option none = none
key_option (some p) = some (place_key p)

get_elem-nth :
    (x : Place) (n k : ℕ) (xs : List Place)
    → k ≡ min n (length xs)
    → get_elem? (map place_key (x ∷ xs)) k ≡ some (place_key (nth x n xs))
get_elem-nth x zero k xs h = let z : k ≡ 0 = ground arith in rw z
get_elem-nth x (suc n) k [] h = let z : k ≡ 0 = ground arith in rw z
get_elem-nth x (suc n) zero (y ∷ ys) h = let f : ⊥ = ground arith in absurd f
get_elem-nth x (suc n) (suc k) (y ∷ ys) h = get_elem-nth y n k ys (ground arith)

last-min :
    (n m : ℕ) (xs : List Place)
    → m ≡ min n (length xs)
    → last_of m (map place_key xs) ≡ key_option (page_last n xs)
last-min zero m xs h = let z : m ≡ 0 = ground arith in rw z
last-min (suc n) m [] h = let z : m ≡ 0 = ground arith in rw z
last-min (suc n) zero (x ∷ xs) h = let f : ⊥ = ground arith in absurd f
last-min (suc n) (suc m) (x ∷ xs) h = get_elem-nth x n m xs (ground arith)

pub last_of-min :
    (n : ℕ) (xs : List Place)
    → last_of (min n (length xs)) (map place_key xs) ≡ key_option (page_last n xs)
last_of-min n xs = last-min n (min n (length xs)) xs refl

-- The rows up to a row, and none if there is no such row.
abbrev pub keep_to : Option Place → List Place → List Place
keep_to none xs = []
keep_to (some l) xs = filter (λ p. not (lt l p)) xs

filter_none : (p : Place → Bool) (xs : List Place) → All (λ x. p x ≡ false) xs → filter p xs ≡ []
unfolding filter
filter_none p [] a = refl
filter_none p (x ∷ xs) a = rw (a.0, filter_none p xs a.1)

filter-All : (p : Place → Bool) (xs : List Place) → All (λ x. p x ≡ true) xs → filter p xs ≡ xs
unfolding filter
filter-All p [] a = refl
filter-All p (x ∷ xs) a = rw (a.0, filter-All p xs a.1)

lt_irrefl : (x : Place) → lt x x ≡ false
lt_irrefl x = ground arith

nth_not_before :
    (x : Place) (n : ℕ) (xs : List Place) → IsSorted (x ∷ xs) → lt (nth x n xs) x ≡ false
nth_not_before x zero xs s = lt_irrefl x
nth_not_before x (suc n) [] s = lt_irrefl x
nth_not_before x (suc n) (y ∷ ys) s = le_trans x y (nth y n ys) s.0.0 (nth_not_before y n ys s.1)

All-past :
    (x y : Place) (ys : List Place)
    → lt x y ≡ true
    → All (λ z. lt z y ≡ false) ys
    → All (λ z. not (lt x z) ≡ false) ys
All-past x y [] h a = tt
All-past x y (z ∷ zs) h a = (ap not (lt_le_trans x y z h a.0), All-past x y zs h a.1)

cut_at :
    (n : ℕ) (x : Place) (xs : List Place)
    → IsSorted (x ∷ xs)
    → IsStrict (take (suc (suc n)) (x ∷ xs))
    → filter (λ p. not (lt (nth x n xs) p)) (x ∷ xs) ≡ take (suc n) (x ∷ xs)
unfolding filter
cut_at zero x [] s t = rw (lt_irrefl x)
cut_at zero x (y ∷ ys) s t =
    let none_left = filter_none (λ p. not (lt x p)) ys (All-past x y ys t.0.0 s.1.0) in
    rw (lt_irrefl x, t.0.0, none_left)
cut_at (suc n) x [] s t = rw (lt_irrefl x)
cut_at (suc n) x (y ∷ ys) s t =
    rw (nth_not_before x (suc n) (y ∷ ys) s) (ap (λ rest. x ∷ rest) (cut_at n y ys s.1 t.1))

-- A page holds its rows up to its last one, if no two of its rows and the next have the same place.
pub keep_to-page_last :
    (n : ℕ) (xs : List Place)
    → IsSorted xs
    → IsStrict (take (suc n) xs)
    → keep_to (page_last n xs) xs ≡ take n xs
unfolding filter
keep_to-page_last zero xs s t = refl
keep_to-page_last (suc n) [] s t = refl
keep_to-page_last (suc n) (x ∷ xs) s t = cut_at n x xs s t

nth-All :
    (P : Place → Type 0) (x : Place) (n : ℕ) (xs : List Place) → All P (x ∷ xs) → P (nth x n xs)
nth-All P x zero xs a = a.0
nth-All P x (suc n) [] a = a.0
nth-All P x (suc n) (y ∷ ys) a = nth-All P y n ys a.1

IsSorted-IsStrict : (xs : List Place) → IsStrict xs → IsSorted xs
IsSorted-IsStrict [] s = tt
IsSorted-IsStrict (x ∷ xs) s = (not_before xs s.0, IsSorted-IsStrict xs s.1)
  where
    not_before : (ys : List Place) → All (λ y. lt x y ≡ true) ys → All (λ y. lt y x ≡ false) ys
    not_before [] a = tt
    not_before (y ∷ ys) a = (lt_asym x y a.0, not_before ys a.1)

rest_at :
    (n : ℕ) (x : Place) (xs : List Place)
    → IsStrict (x ∷ xs)
    → filter (lt (nth x n xs)) (x ∷ xs) ≡ drop (suc n) (x ∷ xs)
unfolding filter
rest_at zero x xs s = rw (lt_irrefl x) (filter-All (lt x) xs s.0)
rest_at (suc n) x [] s = rw (lt_irrefl x)
rest_at (suc n) x (y ∷ ys) s =
    rw (nth_not_before x (suc n) (y ∷ ys) (IsSorted-IsStrict (x ∷ y ∷ ys) s)) (rest_at n y ys s.1)

-- What comes after the last row of a page are the rows that the page leaves.
pub rest_of_page :
    (n : ℕ) (xs : List Place) (l : Place)
    → IsStrict xs
    → page_last n xs ≡ some l
    → filter (lt l) xs ≡ drop n xs
unfolding filter
rest_of_page zero xs l s h = let f : ⊥ = grind arith in absurd f
rest_of_page (suc n) [] l s h = let f : ⊥ = grind arith in absurd f
rest_of_page (suc n) (x ∷ xs) l s h =
    let same : nth x n xs ≡ l = grind arith in
    ap (λ m. filter (lt m) (x ∷ xs)) (sym same) ∙ rest_at n x xs s

pub page_last-All :
    (P : Place → Type 0) (n : ℕ) (xs : List Place) (l : Place)
    → All P xs
    → page_last n xs ≡ some l
    → P l
page_last-All P zero xs l a h = let f : ⊥ = grind arith in absurd f
page_last-All P (suc n) [] l a h = let f : ⊥ = grind arith in absurd f
page_last-All P (suc n) (x ∷ xs) l a h =
    let same : nth x n xs ≡ l = grind arith in subst P same (nth-All P x n xs a)
