-- ===== src/Sync/Positions.antt =====
-- The position that a page of src/app/services/SyncService.ts hands back: it is accepted, and the rows after
-- it are those the page left.
use lag_money_manager.Prelude.{
  ℕ, zero, suc, ◌≤◌, ◌<◌, Bool, true, false, ◌≡◌, refl, ap, sym, ◌∙◌, Option, none, some, List, [],
  ◌∷◌, take, map, length, ltb, All, Bool-cases, inl, inr, arith, filter,
}
use lag_money_manager.Errors.{ok}
use lag_money_manager.Sync.{
  ChangeCursor, ChangeKey, keyset_after, keyset_id, cursor_fits_reset, same_instant,
}
use lag_money_manager.Sync.Feed.{SyncUser, fetched, reset_of, must_resync, page_of, get_changes}
use lag_money_manager.Sync.Inserts.{Place, lt}
use lag_money_manager.Sync.Late.{drop}
use lag_money_manager.Sync.Keys.{place_key, own, feed, places, after, ordered_places}
use lag_money_manager.Sync.Filters.{map-filter}
use lag_money_manager.Sync.Page.{
  IsStrict, IsStrict-filter, nth, page_last, rest_of_page, page_last-All,
}
use lag_money_manager.Sync.Answer.{wanted}

-- The rows of the feed after a cursor.
abbrev pub changes_after :
    Option SyncUser → List (List ChangeKey) → Option (ChangeCursor ℕ) → List ChangeKey
changes_after user sources cursor = filter (keyset_after cursor) (feed user sources)

pub changes_after_places :
    (user : Option SyncUser) (sources : List (List ChangeKey)) (cursor : Option (ChangeCursor ℕ))
    → map place_key (wanted user cursor sources) ≡ changes_after user sources cursor
changes_after_places user sources cursor =
    map-filter place_key (after cursor) (keyset_after cursor) (λ p. refl) (places user sources)
    ∙ ap (filter (keyset_after cursor)) (sym (ordered_places (own user ∷ sources)))

filter_same :
    (p q : Place → Bool) (xs : List Place) → ((x : Place) → p x ≡ q x) → filter p xs ≡ filter q xs
unfolding filter
filter_same p q [] h = refl
filter_same p q (x ∷ xs) h = rw (h x, filter_same p q xs h)

filter_within :
    (p q : Place → Bool)
    → ((x : Place) → p x ≡ true → q x ≡ true)
    → (xs : List Place) → filter p (filter q xs) ≡ filter p xs
unfolding filter
filter_within p q h [] = refl
filter_within p q h (x ∷ xs) = elim (Bool-cases (p x)) [
  | inl e ↦ rw (e, h x e, filter_within p q h xs) (rw e)
  | inr e ↦ elim (Bool-cases (q x)) [
    | inl f ↦ rw (e, f) (rw e (filter_within p q h xs))
    | inr f ↦ rw (e, f, filter_within p q h xs)
  ]
]

All-passed : (q : Place → Bool) (xs : List Place) → All (λ x. q x ≡ true) (filter q xs)
unfolding filter
All-passed q [] = tt
All-passed q (x ∷ xs) = elim (Bool-cases (q x)) [
  | inl e ↦ rw e (e, All-passed q xs)
  | inr e ↦ rw e (All-passed q xs)
]

-- A row behind one that a cursor lets through is let through.
after_behind :
    (cursor : Option (ChangeCursor ℕ)) (l p : Place)
    → after cursor l ≡ true
    → lt l p ≡ true
    → after cursor p ≡ true
unfolding keyset_after
after_behind none l p h k = refl
after_behind (some cursor) l p h k =
    elim cursor.id
        as (λ id.
          keyset_id cursor.updated_at (place_key l) id ≡ true
          → keyset_id cursor.updated_at (place_key p) id ≡ true) [
            | none ↦ λ h. ground arith
            | some id ↦ λ h. ground arith
          ]
      h

abbrev pub position_of : Place → Option ℕ → ChangeCursor ℕ
position_of l reset = record { updated_at = l.0; id = some l.1; reset_at = some reset }

after_position :
    (l : Place) (reset : Option ℕ) (p : Place) → after (some (position_of l reset)) p ≡ lt l p
unfolding keyset_after
after_position l reset p = ground arith

pub rows_left :
    (limit : ℕ) (user : Option SyncUser) (sources : List (List ChangeKey))
    (cursor : Option (ChangeCursor ℕ)) (l : Place) (reset : Option ℕ)
    → IsStrict (places user sources)
    → page_last limit (wanted user cursor sources) ≡ some l
    → wanted user (some (position_of l reset)) sources ≡ drop limit (wanted user cursor sources)
rows_left limit user sources cursor l reset s h =
    let rows = places user sources in
    let through =
      page_last-All (λ p. after cursor p ≡ true) limit (wanted user cursor sources) l
        (All-passed (after cursor) rows) h in
    filter_same (after (some (position_of l reset))) (lt l) rows (after_position l reset)
    ∙ sym (filter_within (lt l) (after cursor) (λ p k. after_behind cursor l p through k) rows)
    ∙ rest_of_page limit (wanted user cursor sources) l (IsStrict-filter (after cursor) rows s) h

pub page_last-some :
    (limit : ℕ) (xs : List Place)
    → 0 < limit
    → ltb limit (length xs) ≡ true
    → (l : Place) × (page_last limit xs ≡ some l)
page_last-some zero xs a h = let f : ⊥ = omega arith in absurd f
page_last-some (suc n) [] a h = let f : ⊥ = ground arith in absurd f
page_last-some (suc n) (x ∷ xs) a h = (nth x n xs, refl)

same_instant_refl : (reset : Option ℕ) → same_instant reset reset ≡ true
same_instant_refl none = refl
same_instant_refl (some t) = ground arith

pub position-fits :
    (user : Option SyncUser) (l : Place)
    → must_resync user (some (position_of l (reset_of user))) ≡ false
unfolding cursor_fits_reset
position-fits none l = refl
position-fits (some user) l = rw (same_instant_refl user.data_reset_at)

pub get_changes-page :
    (server_time : ℕ) (user : Option SyncUser) (cursor : Option (ChangeCursor ℕ)) (limit : ℕ)
    (sources : List (List ChangeKey))
    → must_resync user cursor ≡ false
    → get_changes server_time user cursor limit sources
      ≡ ok (page_of server_time (reset_of user) limit (fetched user cursor limit sources))
unfolding get_changes
get_changes-page server_time user cursor limit sources h = rw h

drop-length : (n : ℕ) (xs : List Place) → length (drop n xs) ≤ length xs
drop-length zero xs = omega arith
drop-length (suc n) [] = omega arith
drop-length (suc n) (x ∷ xs) = omega (arith, drop-length n xs)

pub drop_shorter :
    (n : ℕ) (xs : List Place) → 0 < n → ltb n (length xs) ≡ true → length (drop n xs) < length xs
drop_shorter zero xs a h = let f : ⊥ = omega arith in absurd f
drop_shorter (suc n) [] a h = let f : ⊥ = ground arith in absurd f
drop_shorter (suc n) (x ∷ xs) a h = let k = drop-length n xs in omega (arith, k)

pub take_all : (n : ℕ) (xs : List Place) → ltb n (length xs) ≡ false → take n xs ≡ xs
take_all zero [] h = refl
take_all zero (x ∷ xs) h = let f : ⊥ = ground arith in absurd f
take_all (suc n) [] h = refl
take_all (suc n) (x ∷ xs) h = ap (λ rest. x ∷ rest) (take_all n xs (ground arith))
