-- ===== src/Sync/Inserts.antt =====
-- Sorting by instant and id: what the first rows of a sorted array depend on.
use Prim.Native.Nat.{Ordering, compare}
use lag_money_manager.Prelude.{
  ℕ, zero, suc, Bool, true, false, ◌≡◌, refl, ap, sym, ◌∙◌, List, [], ◌∷◌, take, if◌then◌else◌,
  arith, Bool-cases, inl, inr,
}
use lag_money_manager.Sorting.{or_else, is_less, insert}

-- An instant and an id.
abbrev pub Place : Type 0
Place = ℕ × ℕ

abbrev pub place_order : Place → Place → Ordering
place_order p q = or_else (compare p.0 q.0) (compare p.1 q.1)

abbrev pub lt : Place → Place → Bool
lt p q = is_less (place_order p q)

pub lt_trans : (p q r : Place) → lt p q ≡ true → lt q r ≡ true → lt p r ≡ true
lt_trans p q r h k = ground arith

-- What is not behind what is not behind.
pub le_trans : (p q r : Place) → lt q p ≡ false → lt r q ≡ false → lt r p ≡ false
le_trans p q r h k = ground arith

pub lt_asym : (p q : Place) → lt p q ≡ true → lt q p ≡ false
lt_asym p q h = ground arith

pub lt_antisym : (p q : Place) → lt p q ≡ false → lt q p ≡ false → p ≡ q
lt_antisym p q h k = ground arith

abbrev pub put : Place → List Place → List Place
put x xs = insert place_order x xs

pub take-take {ℓ} : {A : Type ℓ} (n : ℕ) (xs : List A) → take n (take (suc n) xs) ≡ take n xs
take-take zero xs = refl
take-take (suc n) [] = refl
take-take (suc n) (x ∷ xs) = ap (λ rest. x ∷ rest) (take-take n xs)

take_shorter {ℓ} :
    {A : Type ℓ} (n : ℕ) (x : A) (xs : List A) → take n (x ∷ take n xs) ≡ take n (x ∷ xs)
take_shorter zero x xs = refl
take_shorter (suc n) x xs = ap (λ rest. x ∷ rest) (take-take n xs)

-- The first rows after an insertion depend on as many rows before it.
pub take-put :
    (n : ℕ) (x : Place) (ys : List Place) → take n (put x (take n ys)) ≡ take n (put x ys)
unfolding insert
take-put zero x ys = refl
take-put (suc n) x [] = refl
take-put (suc n) x (y ∷ ys) = elim (Bool-cases (lt y x)) [
  | inl e ↦ rw e (ap (λ rest. y ∷ rest) (take-put n x ys))
  | inr e ↦ rw e (ap (λ rest. x ∷ rest) (take_shorter n y ys))
]

swap_front :
    (x y : Place) (zs : List Place)
    → (if lt y x then y ∷ x ∷ zs else x ∷ y ∷ zs) ≡ (if lt x y then x ∷ y ∷ zs else y ∷ x ∷ zs)
swap_front x y zs = elim (Bool-cases (lt y x)) [
  | inl e ↦ rw (e, lt_asym y x e)
  | inr e ↦ elim (Bool-cases (lt x y)) [ inl f ↦ rw (e, f) | inr f ↦ rw (lt_antisym x y f e) ]
]

pub put_behind : (x z : Place) (zs : List Place) → lt z x ≡ true → put x (z ∷ zs) ≡ z ∷ put x zs
unfolding insert
put_behind x z zs e = rw e

pub put_before : (x z : Place) (zs : List Place) → lt z x ≡ false → put x (z ∷ zs) ≡ x ∷ z ∷ zs
unfolding insert
put_before x z zs e = rw e

put_twice :
    (x y z : Place) (zs : List Place)
    → lt z x ≡ false
    → put x (y ∷ z ∷ zs) ≡ (if lt y x then y ∷ x ∷ z ∷ zs else x ∷ y ∷ z ∷ zs)
unfolding insert
put_twice x y z zs e = rw e

-- x is not behind z, which is before y.
le_lt_trans : (x y z : Place) → lt z x ≡ false → lt z y ≡ true → lt x y ≡ true
le_lt_trans x y z h k = ground arith

put_across :
    (x y z : Place) (zs : List Place)
    → lt z y ≡ true
    → lt z x ≡ false
    → put x (z ∷ put y zs) ≡ put y (x ∷ z ∷ zs)
put_across x y z zs e f =
    put_before x z (put y zs) f
    ∙ sym (
        put_behind y x (z ∷ zs) (le_lt_trans x y z f e)
        ∙ ap (λ rest. x ∷ rest) (put_behind y z zs e))

put_comm_nil : (x y : Place) → put x (put y []) ≡ put y (put x [])
unfolding insert
put_comm_nil x y = swap_front x y []

-- Rows can be inserted in any order.
pub put_comm : (x y : Place) (zs : List Place) → put x (put y zs) ≡ put y (put x zs)
put_comm x y [] = put_comm_nil x y
put_comm x y (z ∷ zs) = elim (Bool-cases (lt z y)) [
  | inl e ↦ elim (Bool-cases (lt z x)) [
    | inl f ↦ rw (
      put_behind y z zs e,
      put_behind x z zs f,
      put_behind x z (put y zs) f,
      put_behind y z (put x zs) e,
      put_comm x y zs,
    )
    | inr f ↦ rw (put_behind y z zs e, put_before x z zs f) (put_across x y z zs e f)
  ]
  | inr e ↦ elim (Bool-cases (lt z x)) [
    | inl f ↦ rw (put_before y z zs e, put_behind x z zs f) (sym (put_across y x z zs f e))
    | inr f ↦
        rw (put_before y z zs e, put_before x z zs f, put_twice x y z zs f, put_twice y x z zs e)
          (swap_front x y (z ∷ zs))
  ]
]
