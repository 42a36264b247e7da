-- ===== src/Sync/Keys.antt =====
-- What `getChanges` of src/app/services/SyncService.ts reads, as sorted instants and ids: every stored row
-- in order, and the rows of it that the sources answer.
use lag_money_manager.Prelude.{
  ℕ, zero, suc, Bool, false, ◌≡◌, refl, ap, sym, ◌∙◌, Option, none, some, List, [], ◌∷◌, ◌++◌, take,
  map, All, if◌then◌else◌, Bool-cases, inl, inr, filter,
}
use lag_money_manager.Sorting.{insert, sort}
use lag_money_manager.Sync.{ChangeCursor, ChangeKey, stamp, compare_changes, keyset_after}
use lag_money_manager.Sync.Order.{keyset_after-is_after_cursor}
use lag_money_manager.Sync.Feed.{
  concat, changes_since, SyncUser, user_rows, fetched, change_key_of, ordered,
}
use lag_money_manager.Sync.Inserts.{Place, lt, put, le_trans}
use lag_money_manager.Sync.Merge.{sorted, IsSorted, IsSorted-sorted}
use lag_money_manager.Sync.Late.{take-sorted-concat}
use lag_money_manager.Sync.Filters.{map-append, map-concat, map-take, filter-append, map-filter}

abbrev pub to_place : ChangeKey → Place
to_place row = (stamp row, row.id)

abbrev pub place_key : Place → ChangeKey
place_key p = record { updated_at = some p.0; id = p.1 }

-- The caller's own row, as a source.
abbrev pub own : Option SyncUser → List ChangeKey
own none = []
own (some user) = user.key ∷ []

-- Every stored row that the caller may read, in order.
abbrev pub feed : Option SyncUser → List (List ChangeKey) → List ChangeKey
feed user sources = ordered (own user ∷ sources)

abbrev pub places : Option SyncUser → List (List ChangeKey) → List Place
places user sources = sorted (map to_place (concat (own user ∷ sources)))

abbrev pub after : Option (ChangeCursor ℕ) → Place → Bool
after cursor p = keyset_after cursor (place_key p)

insert-to_place :
    (x : ChangeKey) (xs : List ChangeKey)
    → map to_place (insert compare_changes x xs) ≡ put (to_place x) (map to_place xs)
unfolding insert compare_changes
insert-to_place x [] = refl
insert-to_place x (y ∷ ys) = elim (Bool-cases (lt (to_place y) (to_place x))) [
  | inl e ↦ rw (e, insert-to_place x ys)
  | inr e ↦ rw e
]

sort-to_place :
    (xs : List ChangeKey) → map to_place (sort compare_changes xs) ≡ sorted (map to_place xs)
unfolding sort
sort-to_place [] = refl
sort-to_place (x ∷ xs) =
    insert-to_place x (sort compare_changes xs) ∙ ap (put (to_place x)) (sort-to_place xs)

insert-place_key :
    (x : Place) (xs : List Place)
    → insert compare_changes (place_key x) (map place_key xs) ≡ map place_key (put x xs)
unfolding insert compare_changes
insert-place_key x [] = refl
insert-place_key x (y ∷ ys) = elim (Bool-cases (lt y x)) [
  | inl e ↦ rw (e, insert-place_key x ys)
  | inr e ↦ rw e
]

sort-change_key_of :
    (xs : List ChangeKey)
    → sort compare_changes (map change_key_of xs) ≡ map place_key (sorted (map to_place xs))
unfolding sort
sort-change_key_of [] = refl
sort-change_key_of (x ∷ xs) =
    ap (insert compare_changes (change_key_of x)) (sort-change_key_of xs)
    ∙ insert-place_key (to_place x) (sorted (map to_place xs))

pub ordered_places :
    (answers : List (List ChangeKey))
    → ordered answers ≡ map place_key (sorted (map to_place (concat answers)))
unfolding ordered
ordered_places answers = sort-change_key_of (concat answers)

after_row :
    (cursor : Option (ChangeCursor ℕ)) (row : ChangeKey)
    → keyset_after cursor row ≡ after cursor (to_place row)
unfolding keyset_after
after_row none row = refl
after_row (some cursor) row = elim cursor.id [ none ↦ refl | some id ↦ refl ]

-- A sorted array stays sorted, and in the same order, when rows are left out.
pub All-filter :
    (P : Place → Type 0) (p : Place → Bool) (xs : List Place) → All P xs → All P (filter p xs)
unfolding filter
All-filter P p [] a = tt
All-filter P p (x ∷ xs) a = elim (Bool-cases (p x)) [
  | inl e ↦ rw e (a.0, All-filter P p xs a.1)
  | inr e ↦ rw e (All-filter P p xs a.1)
]

pub IsSorted-filter : (p : Place → Bool) (xs : List Place) → IsSorted xs → IsSorted (filter p xs)
unfolding filter
IsSorted-filter p [] s = tt
IsSorted-filter p (x ∷ xs) s = elim (Bool-cases (p x)) [
  | inl e ↦ rw e (All-filter (λ y. lt y x ≡ false) p xs s.0, IsSorted-filter p xs s.1)
  | inr e ↦ rw e (IsSorted-filter p xs s.1)
]

put_first_of :
    (x y : Place) (ys : List Place)
    → lt y x ≡ false
    → All (λ z. lt z y ≡ false) ys
    → All (λ z. lt z x ≡ false) ys
put_first_of x y [] h a = tt
put_first_of x y (z ∷ zs) h a = (le_trans x y z h a.0, put_first_of x y zs h a.1)

put_smallest : (x : Place) (ys : List Place) → All (λ y. lt y x ≡ false) ys → put x ys ≡ x ∷ ys
unfolding insert
put_smallest x [] a = refl
put_smallest x (y ∷ ys) a = rw a.0

filter-put :
    (p : Place → Bool) (x : Place) (ys : List Place)
    → IsSorted ys
    → filter p (put x ys) ≡ (if p x then put x (filter p ys) else filter p ys)
unfolding filter insert
filter-put p x [] s = elim (Bool-cases (p x)) [ inl e ↦ rw e | inr e ↦ rw e ]
filter-put p x (y ∷ ys) s = elim (Bool-cases (lt y x)) [
  | inl e ↦
      (let ih = filter-put p x ys s.1 in
        elim (Bool-cases (p y)) [
          | inl g ↦ elim (Bool-cases (p x)) [
            | inl f ↦ (let k = rw f at ih in rw (e, g, f) (rw (k, e)))
            | inr f ↦ (let k = rw f at ih in rw (e, g, f) (rw k))
          ]
          | inr g ↦ rw (e, g) ih
        ])
  | inr e ↦
      (let behind = All-filter (λ z. lt z x ≡ false) p ys (put_first_of x y ys e s.0) in
        let first = put_smallest x (filter p ys) behind in
        elim (Bool-cases (p x)) [
          | inl f ↦ elim (Bool-cases (p y)) [
            | inl g ↦ rw (e, f, g) (rw e)
            | inr g ↦ rw (e, f, g) (rw first)
          ]
          | inr f ↦ rw (e, f)
        ])
]

pub filter-sorted :
    (p : Place → Bool) (xs : List Place) → filter p (sorted xs) ≡ sorted (filter p xs)
unfolding filter sort
filter-sorted p [] = refl
filter-sorted p (x ∷ xs) =
    filter-put p x (sorted xs) (IsSorted-sorted xs) ∙ elim (Bool-cases (p x)) [
      | inl e ↦ rw (e, filter-sorted p xs)
      | inr e ↦ rw (e, filter-sorted p xs)
    ]

abbrev no_places : List Place
no_places = []

take_nil : (n : ℕ) → take n no_places ≡ no_places
take_nil zero = refl
take_nil (suc n) = refl

module _ (cursor : Option (ChangeCursor ℕ)) where
  abbrev rows_after : List ChangeKey → List Place
  rows_after rows = filter (after cursor) (map to_place rows)

  cut_source :
      (n : ℕ) (rows : List ChangeKey)
      → map to_place (changes_since cursor n rows) ≡ take n (sorted (rows_after rows))
  unfolding changes_since
  cut_source n rows =
      map-take to_place n (sort compare_changes (filter (keyset_after cursor) rows))
      ∙ ap (take n) (
          sort-to_place (filter (keyset_after cursor) rows)
          ∙ ap sorted
              (map-filter to_place (keyset_after cursor) (after cursor) (after_row cursor) rows))

  cut_sources :
      (n : ℕ) (sources : List (List ChangeKey))
      → map (map to_place) (map (changes_since cursor n) sources)
        ≡ map (λ ys. take n (sorted ys)) (map rows_after sources)
  cut_sources n [] = refl
  cut_sources n (rows ∷ sources) = rw (cut_source n rows, cut_sources n sources)

  cut_own :
      (n : ℕ) (user : Option SyncUser)
      → map to_place (user_rows user cursor) ≡ take (suc n) (sorted (rows_after (own user)))
  unfolding filter sort insert
  cut_own n none = refl
  cut_own n (some user) =
      let same = keyset_after-is_after_cursor cursor user.key in
      let place = after_row cursor user.key in
      elim (Bool-cases (after cursor (to_place user.key))) [
        | inl e ↦ rw (sym same, place, e, take_nil n)
        | inr e ↦ rw (sym same, place, e)
      ]

  all_rows_after :
      (xss : List (List ChangeKey))
      → concat (map rows_after xss) ≡ filter (after cursor) (map to_place (concat xss))
  unfolding filter
  all_rows_after [] = refl
  all_rows_after (xs ∷ xss) =
      ap (λ rest. rows_after xs ++ rest) (all_rows_after xss)
      ∙ sym (
          ap (filter (after cursor)) (map-append to_place xs (concat xss))
          ∙ filter-append (after cursor) (map to_place xs) (map to_place (concat xss)))

  -- What the sources answer has the same first rows as everything after the cursor.
  pub take-fetched :
      (n : ℕ) (user : Option SyncUser) (sources : List (List ChangeKey))
      → take (suc n) (sorted (map to_place (concat (fetched user cursor n sources))))
        ≡ take (suc n) (filter (after cursor) (places user sources))
  unfolding fetched
  take-fetched n user sources =
      let lists = own user ∷ sources in
      ap (λ xs. take (suc n) (sorted xs))
        (map-concat to_place (fetched user cursor n sources)
          ∙ ap concat (
              ap (λ xs. xs ∷ map (map to_place) (map (changes_since cursor (suc n)) sources))
                (cut_own n user)
              ∙ ap (λ xss. take (suc n) (sorted (rows_after (own user))) ∷ xss)
                  (cut_sources (suc n) sources)))
      ∙ take-sorted-concat (suc n) (map rows_after lists)
      ∙ ap (take (suc n)) (
          ap sorted (all_rows_after lists)
          ∙ sym (filter-sorted (after cursor) (map to_place (concat lists))))
