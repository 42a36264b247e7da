-- ===== src/Sync/Answer.antt =====
-- What `page_of`, the answer of `getChanges` in src/app/services/SyncService.ts, holds: the rows of a page,
-- whether there are more, and the next position, out of the rows in order after the cursor.
use mathlib.Core.Path.{subst}
use lag_money_manager.Prelude.{
  ℕ, suc, true, not, ◌≡◌, refl, ap, sym, ◌∙◌, Option, none, some, List, [], ◌∷◌, take, map, length,
  min, ltb, All, arith, filter, length-map,
}
use lag_money_manager.Sorting.{is_less, sort}
use lag_money_manager.Sync.{ChangeCursor, ChangeKey, compare_changes}
use lag_money_manager.Sync.Feed.{
  concat, SyncUser, fetched, ordered, is_at_most, up_to, last_of, next_position, SyncPage, reset_of,
  page_of,
}
use lag_money_manager.Sync.Inserts.{Place, lt, take-take}
use lag_money_manager.Sync.Merge.{sorted, IsSorted-sorted}
use lag_money_manager.Sync.Keys.{
  to_place, place_key, places, after, ordered_places, filter-sorted, take-fetched,
}
use lag_money_manager.Sync.Filters.{filter-concat, map-filter}
use lag_money_manager.Sync.Page.{
  IsStrict, IsStrict-filter, IsStrict-take, longer, page_last, page_last-take, key_option,
  last_of-min, keep_to, keep_to-page_last,
}

-- Each change is before those that follow it: no two have the same instant and the same id.
abbrev pub IsAscending : List ChangeKey → Type 0
IsAscending [] = Unit
IsAscending (a ∷ rows) = All (λ b. is_less (compare_changes a b) ≡ true) rows × IsAscending rows

All-places :
    (x : Place) (xs : List Place)
    → All (λ b. is_less (compare_changes (place_key x) b) ≡ true) (map place_key xs)
    → All (λ y. lt x y ≡ true) xs
unfolding compare_changes
All-places x [] a = tt
All-places x (y ∷ ys) a = (a.0, All-places x ys a.1)

pub IsStrict-places : (xs : List Place) → IsAscending (map place_key xs) → IsStrict xs
IsStrict-places [] h = tt
IsStrict-places (x ∷ xs) h = (All-places x xs h.0, IsStrict-places xs h.1)

at_most_place :
    (l : Place) (row : ChangeKey) → is_at_most (place_key l) row ≡ not (lt l (to_place row))
unfolding compare_changes
at_most_place l row = ground arith

concat_nothing : (answers : List (List ChangeKey)) → concat (map (up_to none) answers) ≡ []
unfolding up_to
concat_nothing [] = refl
concat_nothing (rows ∷ answers) = concat_nothing answers

-- The rows of a page, in order, out of all that was answered.
ordered-up_to :
    (l : Option Place) (answers : List (List ChangeKey))
    → ordered (map (up_to (key_option l)) answers)
      ≡ map place_key (keep_to l (sorted (map to_place (concat answers))))
unfolding ordered up_to sort
ordered-up_to none answers = rw (concat_nothing answers)
ordered-up_to (some l) answers =
    ordered_places (map (filter (is_at_most (place_key l))) answers)
    ∙ ap (λ xs. map place_key (sorted (map to_place xs)))
        (filter-concat (is_at_most (place_key l)) answers)
    ∙ ap (λ xs. map place_key (sorted xs))
        (map-filter to_place (is_at_most (place_key l)) (λ p. not (lt l p)) (at_most_place l)
          (concat answers))
    ∙ ap (map place_key) (sym (filter-sorted (λ p. not (lt l p)) (map to_place (concat answers))))

-- The rows after a cursor, in order.
abbrev pub wanted : Option SyncUser → Option (ChangeCursor ℕ) → List (List ChangeKey) → List Place
wanted user cursor sources = filter (after cursor) (places user sources)

module _ (server_time limit : ℕ) (user : Option SyncUser) (cursor : Option (ChangeCursor ℕ))
    (sources : List (List ChangeKey)) (h : IsStrict (places user sources)) where
  abbrev answered : List Place
  answered = sorted (map to_place (concat (fetched user cursor limit sources)))

  abbrev rows_wanted : List Place
  rows_wanted = wanted user cursor sources

  abbrev the_page : SyncPage
  the_page = page_of server_time (reset_of user) limit (fetched user cursor limit sources)

  same_start : take (suc limit) answered ≡ take (suc limit) rows_wanted
  same_start = take-fetched cursor limit user sources

  same_last : page_last limit answered ≡ page_last limit rows_wanted
  same_last =
      sym (page_last-take limit answered)
      ∙ ap (page_last limit) same_start
      ∙ page_last-take limit rows_wanted

  same_more : ltb limit (length answered) ≡ ltb limit (length rows_wanted)
  same_more =
      sym (longer limit answered)
      ∙ ap (λ xs. ltb limit (length xs)) same_start
      ∙ longer limit rows_wanted

  answered_start : IsStrict (take (suc limit) answered)
  answered_start = subst IsStrict (sym same_start) (
      IsStrict-take (suc limit) rows_wanted
        (IsStrict-filter (after cursor) (places user sources) h))

  last_key :
      last_of
        (min limit (length (ordered (fetched user cursor limit sources))))
        (ordered (fetched user cursor limit sources))
      ≡ key_option (page_last limit answered)
  last_key =
      ap (λ (rows : List ChangeKey). last_of (min limit (length rows)) rows)
        (ordered_places (fetched user cursor limit sources))
      ∙ ap (λ n. last_of (min limit n) (map place_key answered)) (length-map place_key answered)
      ∙ last_of-min limit answered

  pub page_rows : ordered the_page.changes ≡ map place_key (take limit rows_wanted)
  unfolding page_of
  page_rows =
      ap (λ l. ordered (map (up_to l) (fetched user cursor limit sources))) last_key
      ∙ ordered-up_to (page_last limit answered) (fetched user cursor limit sources)
      ∙ ap (map place_key) (
          keep_to-page_last limit answered
            (IsSorted-sorted (map to_place (concat (fetched user cursor limit sources))))
            answered_start
          ∙ sym (take-take limit answered)
          ∙ ap (take limit) same_start
          ∙ take-take limit rows_wanted)

  pub page_more : the_page.has_more ≡ ltb limit (length rows_wanted)
  unfolding page_of
  page_more =
      ap (λ (rows : List ChangeKey). ltb limit (length rows))
        (ordered_places (fetched user cursor limit sources))
      ∙ ap (ltb limit) (length-map place_key answered)
      ∙ same_more

  pub page_next :
      the_page.next_cursor
      ≡ next_position server_time
          (ltb limit (length rows_wanted))
          (key_option (page_last limit rows_wanted))
          (reset_of user)
  unfolding page_of
  page_next =
      ap (λ l. next_position server_time the_page.has_more l (reset_of user))
        (last_key ∙ ap key_option same_last)
      ∙ ap
          (λ more.
            next_position server_time more (key_option (page_last limit rows_wanted))
              (reset_of user))
          page_more
