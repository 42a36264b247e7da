-- ===== src/Sync/Walk.antt =====
-- `getChanges` of src/app/services/SyncService.ts against the whole feed: one page, a cursor that is refused,
-- and a client that reads page by page, each time from the position that the page before handed
-- back, while nothing is written.
use mathlib.Core.Path.{subst}
use lag_money_manager.Prelude.{
  ℕ, zero, suc, ◌<◌, true, false, ◌≡◌, ap, sym, ◌∙◌, Option, none, some, List, ◌∷◌, ◌++◌, take, map,
  length, ltb, Bool-cases, inl, inr, arith, ◌↔◌, ◌≢◌, length-map,
}
use lag_money_manager.Errors.{ok, err, api, conflict, resync_required}
use lag_money_manager.Sync.{ChangeCursor, ChangeKey, cursor_fits_reset, fits}
use lag_money_manager.Sync.Feed.{
  SyncUser, fetched, ordered, next_position, SyncPage, reset_of, must_resync, page_of, get_changes,
}
use lag_money_manager.Sync.Late.{drop, take-drop}
use lag_money_manager.Sync.Keys.{place_key, own, feed, places, ordered_places}
use lag_money_manager.Sync.Filters.{map-append, map-take}
use lag_money_manager.Sync.Page.{IsStrict, page_last, key_option}
use lag_money_manager.Sync.Answer.{
  IsAscending, IsStrict-places, wanted, page_rows, page_more, page_next,
}
use lag_money_manager.Sync.Positions.{
  changes_after, changes_after_places, position_of, rows_left, page_last-some, position-fits,
  get_changes-page, drop_shorter, take_all,
}

ascending-IsStrict :
    (user : Option SyncUser) (sources : List (List ChangeKey))
    → IsAscending (feed user sources)
    → IsStrict (places user sources)
ascending-IsStrict user sources h =
    IsStrict-places (places user sources)
      (subst IsAscending (ordered_places (own user ∷ sources)) h)

length-changes_after :
    (user : Option SyncUser) (sources : List (List ChangeKey)) (cursor : Option (ChangeCursor ℕ))
    → length (wanted user cursor sources) ≡ length (changes_after user sources cursor)
length-changes_after user sources cursor =
    sym (length-map place_key (wanted user cursor sources))
    ∙ ap length (changes_after_places user sources cursor)

-- A cursor that is not refused is answered by the first rows after it of the whole feed, as many as the limit allows, and by whether there are more. No two rows of the feed may have the same instant and id.
pub get_changes-changes_after :
    (server_time : ℕ) (user : Option SyncUser) (cursor : Option (ChangeCursor ℕ)) (limit : ℕ)
    (sources : List (List ChangeKey))
    → must_resync user cursor ≡ false
    → IsAscending (feed user sources)
    → (page : SyncPage) × (get_changes server_time user cursor limit sources ≡ ok page)
      × (ordered page.changes ≡ take limit (changes_after user sources cursor))
      × (page.has_more ≡ ltb limit (length (changes_after user sources cursor)))
get_changes-changes_after server_time user cursor limit sources fit h =
    let s = ascending-IsStrict user sources h in
    (
      page_of server_time (reset_of user) limit (fetched user cursor limit sources),
      get_changes-page server_time user cursor limit sources fit,
      page_rows server_time limit user cursor sources s
          ∙ map-take place_key limit (wanted user cursor sources)
          ∙ ap (take limit) (changes_after_places user sources cursor),
      page_more server_time limit user cursor sources s
          ∙ ap (ltb limit) (length-changes_after user sources cursor),
    )

-- A copy that was begun before the account's data was last erased: a cursor issued under another reset, or, when it does not say under which, one that starts before the last.
abbrev pub IsUnfit : ChangeCursor ℕ → Option (Option ℕ) → Option ℕ → Type 0
IsUnfit cursor none none = ⊥
IsUnfit cursor none (some reset) = cursor.updated_at < reset
IsUnfit cursor (some issued) reset = issued ≢ reset

fits_iff :
    (cursor : ChangeCursor ℕ) (issued : Option (Option ℕ)) (reset : Option ℕ)
    → (fits cursor.updated_at issued reset ≡ false) ↔ IsUnfit cursor issued reset
fits_iff cursor none none = ground arith
fits_iff cursor none (some reset) = ground arith
fits_iff cursor (some none) none = ground arith
fits_iff cursor (some none) (some reset) = ground arith
fits_iff cursor (some (some t)) none = ground arith
fits_iff cursor (some (some t)) (some reset) = ground arith

-- A caller's cursor is refused, with RESYNC_REQUIRED, exactly when the caller's copy was begun before its data was last erased; it is answered exactly when it fits the last reset.
pub get_changes-IsUnfit :
    (server_time : ℕ) (user : SyncUser) (cursor : ChangeCursor ℕ) (limit : ℕ)
    (sources : List (List ChangeKey))
    → ((get_changes server_time (some user) (some cursor) limit sources
          ≡ err (api conflict resync_required))
        ↔ IsUnfit cursor cursor.reset_at user.data_reset_at)
      × ((cursor_fits_reset cursor user.data_reset_at ≡ true) ↔ (
          (page : SyncPage) × (get_changes server_time (some user) (some cursor) limit sources
            ≡ ok page)))
unfolding get_changes cursor_fits_reset
get_changes-IsUnfit server_time user cursor limit sources =
    let both = fits_iff cursor cursor.reset_at user.data_reset_at in
    let answers = fetched (some user) (some cursor) limit sources in
    elim (Bool-cases (fits cursor.updated_at cursor.reset_at user.data_reset_at)) [
      | inl e ↦ (
        (λ h. let k = rw e at h in cc, λ h. let f = both.1 h in let g : ⊥ = cc in absurd g),
        (λ h. (page_of server_time user.data_reset_at limit answers, rw e), λ h. e),
      )
      | inr e ↦ (
        (λ h. both.0 e, λ h. rw e),
        (λ h. let g : ⊥ = cc in absurd g, λ h. let k = rw e at h.1 in cc),
      )
    ]

-- The pages that a client reads from a cursor on, the n-th at instant clock n, until one says that there are no more; `rows` are all the rows it has read.
module _ (clock : ℕ → ℕ) (user : Option SyncUser) (limit : ℕ)
    (sources : List (List ChangeKey)) where
  pub data Run : ℕ → Option (ChangeCursor ℕ) → List ChangeKey → Type 0 where
    last :
        {n : ℕ} {cursor : Option (ChangeCursor ℕ)} (page : SyncPage)
        → get_changes (clock n) user cursor limit sources ≡ ok page
        → page.has_more ≡ false
        → Run n cursor (ordered page.changes)
    more :
        {n : ℕ} {cursor : Option (ChangeCursor ℕ)} {rows : List ChangeKey} (page : SyncPage)
        → get_changes (clock n) user cursor limit sources ≡ ok page
        → page.has_more ≡ true
        → Run (suc n) (some page.next_cursor) rows
        → Run n cursor (ordered page.changes ++ rows)

  module _ (some_rows : 0 < limit) (s : IsStrict (places user sources)) where
    page_at : ℕ → Option (ChangeCursor ℕ) → SyncPage
    page_at n cursor = page_of (clock n) (reset_of user) limit (fetched user cursor limit sources)

    run_on :
        (fuel n : ℕ) (cursor : Option (ChangeCursor ℕ))
        → must_resync user cursor ≡ false
        → length (wanted user cursor sources) < fuel
        → Run n cursor (map place_key (wanted user cursor sources))
    unfolding page_at
    run_on zero n cursor fit h = let f : ⊥ = omega arith in absurd f
    run_on (suc fuel) n cursor fit h =
        let rows = wanted user cursor sources in
        let answer = get_changes-page (clock n) user cursor limit sources fit in
        let page_holds = page_rows (clock n) limit user cursor sources s in
        let says_more = page_more (clock n) limit user cursor sources s in
        elim (Bool-cases (ltb limit (length rows))) [
          | inl e ↦
              (let l = page_last-some limit rows some_rows e in
                let left = rows_left limit user sources cursor l.0 (reset_of user) s l.1 in
                let next_cursor =
                  page_next (clock n) limit user cursor sources s
                  ∙ ap
                      (λ b.
                        next_position (clock n) b (key_option (page_last limit rows))
                          (reset_of user))
                      e
                  ∙ ap (λ o. next_position (clock n) true (key_option o) (reset_of user)) l.1 in
                let shorter = drop_shorter limit rows some_rows e in
                let rest =
                  run_on fuel (suc n) (some (position_of l.0 (reset_of user)))
                    (position-fits user l.0)
                    (subst (λ xs. length xs < fuel) (sym left) (omega (arith, shorter, h))) in
                let from_next =
                  subst (λ c. Run (suc n) (some c) (map place_key (drop limit rows)))
                    (sym next_cursor)
                    (subst
                      (λ xs.
                        Run (suc n) (some (position_of l.0 (reset_of user))) (map place_key xs))
                      left rest) in
                subst (Run n cursor)
                  (ap (λ xs. xs ++ map place_key (drop limit rows)) page_holds
                    ∙ sym (map-append place_key (take limit rows) (drop limit rows))
                    ∙ ap (map place_key) (take-drop limit rows))
                  (more (page_at n cursor) answer (says_more ∙ e) from_next))
          | inr e ↦
              subst (Run n cursor) (page_holds ∙ ap (map place_key) (take_all limit rows e))
                (last (page_at n cursor) answer (says_more ∙ e))
        ]

-- A client that follows the positions from a cursor that is not refused comes to a last page, and has then read every row of the feed after that cursor, once and in order. A page holds at least one row, no two rows of the feed have the same instant and id, and nothing is written meanwhile.
pub get_changes-Run :
    (clock : ℕ → ℕ) (user : Option SyncUser) (limit : ℕ) (sources : List (List ChangeKey))
    (cursor : Option (ChangeCursor ℕ))
    → 0 < limit
    → must_resync user cursor ≡ false
    → IsAscending (feed user sources)
    → Run clock user limit sources 0 cursor (changes_after user sources cursor)
get_changes-Run clock user limit sources cursor some_rows fit h =
    subst (Run clock user limit sources 0 cursor) (changes_after_places user sources cursor) (
      run_on clock user limit sources some_rows (ascending-IsStrict user sources h)
        (suc (length (wanted user cursor sources))) 0 cursor fit (omega arith))
