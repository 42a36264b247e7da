-- ===== src/Sync/Filters.antt =====
-- Arrays that are mapped, filtered and cut, which src/app/services/SyncService.ts does to its answers.
use lag_money_manager.Prelude.{
  ℕ, zero, suc, Bool, ◌≡◌, refl, ap, sym, ◌∙◌, List, [], ◌∷◌, ◌++◌, take, map, Bool-cases, inl, inr,
  filter,
}
use lag_money_manager.Sync.Feed.{concat}

pub map-append {ℓ} :
    {A B : Type ℓ} (f : A → B) (xs ys : List A) → map f (xs ++ ys) ≡ map f xs ++ map f ys
map-append f [] ys = refl
map-append f (x ∷ xs) ys = ap (λ rest. f x ∷ rest) (map-append f xs ys)

pub map-concat {ℓ} :
    {A B : Type ℓ} (f : A → B) (xss : List (List A)) → map f (concat xss) ≡ concat (map (map f) xss)
map-concat f [] = refl
map-concat f (xs ∷ xss) =
    map-append f xs (concat xss) ∙ ap (λ rest. map f xs ++ rest) (map-concat f xss)

pub map-take {ℓ} :
    {A B : Type ℓ} (f : A → B) (n : ℕ) (xs : List A) → map f (take n xs) ≡ take n (map f xs)
map-take f zero xs = refl
map-take f (suc n) [] = refl
map-take f (suc n) (x ∷ xs) = ap (λ rest. f x ∷ rest) (map-take f n xs)

pub filter-append {ℓ} :
    {A : Type ℓ} (p : A → Bool) (xs ys : List A) → filter p (xs ++ ys) ≡ filter p xs ++ filter p ys
unfolding filter
filter-append p [] ys = refl
filter-append p (x ∷ xs) ys = elim (Bool-cases (p x)) [
  | inl e ↦ rw (e, filter-append p xs ys)
  | inr e ↦ rw (e, filter-append p xs ys)
]

pub filter-concat {ℓ} :
    {A : Type ℓ} (p : A → Bool) (xss : List (List A))
    → concat (map (filter p) xss) ≡ filter p (concat xss)
unfolding filter
filter-concat p [] = refl
filter-concat p (xs ∷ xss) =
    ap (λ rest. filter p xs ++ rest) (filter-concat p xss) ∙ sym (filter-append p xs (concat xss))

pub map-filter {ℓ} :
    {A B : Type ℓ} (f : A → B) (p : A → Bool) (q : B → Bool)
    → ((x : A) → p x ≡ q (f x))
    → (xs : List A) → map f (filter p xs) ≡ filter q (map f xs)
unfolding filter
map-filter f p q same [] = refl
map-filter f p q same (x ∷ xs) = elim (Bool-cases (q (f x))) [
  | inl e ↦ rw (same x, e, map-filter f p q same xs)
  | inr e ↦ rw (same x, e, map-filter f p q same xs)
]
