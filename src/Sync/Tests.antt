-- ===== src/Sync/Tests.antt =====
-- Runs of the change feed, and a cursor that is written and read back.
use lag_money_manager.Prelude.{
  ℕ, ◌+◌, ◌-◌, ◌<◌, true, false, ◌≡◌, refl, ap, Option, none, some, List, [], ◌∷◌, take, length,
  ltb, ◌↔◌, arith, filter,
}
use lag_money_manager.Sorting.{insert, sort}
use lag_money_manager.Errors.{ok, err, api, conflict, resync_required}
use lag_money_manager.Sync.{
  ChangeCursor, ChangeKey, compare_changes, is_after_cursor, keyset_after, cursor_fits_reset,
}
use lag_money_manager.Sync.Cursor.{
  Text, Platform, IsPlatform, encode_cursor, decode_cursor, IsId, decode_cursor-encode_cursor,
}
use lag_money_manager.Sync.Order.{keyset_after-is_after_cursor}
use lag_money_manager.Sync.Feed.{SyncUser, ordered, SyncPage, must_resync, get_changes}
use lag_money_manager.Sync.Keys.{feed}
use lag_money_manager.Sync.Answer.{IsAscending}
use lag_money_manager.Sync.Positions.{changes_after}
use lag_money_manager.Sync.Walk.{
  get_changes-changes_after, IsUnfit, get_changes-IsUnfit, Run, get_changes-Run,
}

abbrev row : ℕ → ℕ → ChangeKey
row instant id = record { updated_at = some instant; id = id }

abbrev ana : SyncUser
ana = record { key = row 100050 1; data_reset_at = some 100000 }

-- Two accounts and three movements, two of them of the same instant.
abbrev stored : List (List ChangeKey)
stored = (row 100060 2 ∷ row 100040 3 ∷ []) ∷ (row 100050 6 ∷ row 100050 5 ∷ row 100090 4 ∷ []) ∷ []

abbrev second_page : ChangeCursor ℕ
second_page = record { updated_at = 100050; id = some 1; reset_at = some (some 100000) }

stored_in_order :
    feed (some ana) stored
    ≡ row 100040 3 ∷ row 100050 1 ∷ row 100050 5 ∷ row 100050 6 ∷ row 100060 2 ∷ row 100090 4 ∷ []
unfolding ordered sort insert compare_changes
stored_in_order = refl

stored-IsAscending : IsAscending (feed (some ana) stored)
unfolding ordered sort insert compare_changes
stored-IsAscending = (
  (refl, (refl, (refl, (refl, (refl, tt))))),
  (
    (refl, (refl, (refl, (refl, tt)))),
    ((refl, (refl, (refl, tt))), ((refl, (refl, tt)), ((refl, tt), (tt, tt)))),
  ),
)

second_page_fits : must_resync (some ana) (some second_page) ≡ false
unfolding cursor_fits_reset
second_page_fits = refl

rows_of_second_page :
    changes_after (some ana) stored (some second_page)
    ≡ row 100050 5 ∷ row 100050 6 ∷ row 100060 2 ∷ row 100090 4 ∷ []
unfolding ordered sort insert compare_changes filter keyset_after
rows_of_second_page = refl

get_changes-changes_after_example :
    (page : SyncPage) × (get_changes 200000 (some ana) (some second_page) 2 stored ≡ ok page)
    × (ordered page.changes ≡ take 2 (changes_after (some ana) stored (some second_page)))
    × (page.has_more ≡ ltb 2 (length (changes_after (some ana) stored (some second_page))))
get_changes-changes_after_example =
    get_changes-changes_after 200000 (some ana) (some second_page) 2 stored second_page_fits
      stored-IsAscending

two_at_least : 0 < 2
two_at_least = omega arith

get_changes-Run_example :
    Run (λ n. 200000 + n) (some ana) 2 stored 0 none (changes_after (some ana) stored none)
get_changes-Run_example =
    get_changes-Run (λ n. 200000 + n) (some ana) 2 stored none two_at_least refl stored-IsAscending

-- A copy begun before the reset.
abbrev old_copy : ChangeCursor ℕ
old_copy = record { updated_at = 100050; id = some 1; reset_at = some none }

get_changes-IsUnfit_example :
    ((get_changes 200000 (some ana) (some old_copy) 2 stored ≡ err (api conflict resync_required))
      ↔ IsUnfit old_copy (some none) (some 100000))
    × ((cursor_fits_reset old_copy (some 100000) ≡ true)
        ↔ ((page : SyncPage) × (get_changes 200000 (some ana) (some old_copy) 2 stored ≡ ok page)))
get_changes-IsUnfit_example = get_changes-IsUnfit 200000 ana old_copy 2 stored

keyset_after-is_after_cursor_example :
    keyset_after (some second_page) (row 100050 5)
    ≡ is_after_cursor (row 100050 5) (some second_page)
keyset_after-is_after_cursor_example =
    keyset_after-is_after_cursor (some second_page) (row 100050 5)

-- A form of instants with one character for each, and no encoding.
abbrev one_char_instant : Text → Option ℕ
one_char_instant (c ∷ []) = some (c - 200)
one_char_instant _ = none

abbrev one_char : Platform
one_char = record {
  to_iso = λ t. (t + 200) ∷ [];
  parse = one_char_instant;
  to_base64url = λ text. text;
  of_base64url = λ text. text;
}

same_back : (t : ℕ) → (t + 200) - 200 ≡ t
same_back t = omega arith

one_char-IsPlatform : IsPlatform one_char
one_char-IsPlatform = record {
  parse_iso = λ t. ap some (same_back t);
  iso_plain = λ t. (ground arith, tt);
  base64url_back = λ t. refl;
}

abbrev written : ChangeCursor Text
written = record { updated_at = 5; id = some (97 ∷ 49 ∷ []); reset_at = some (some 3) }

written-IsId : IsId (some (97 ∷ 49 ∷ []))
written-IsId = (λ h. cc, (refl, (refl, tt)))

decode_cursor-encode_cursor_example :
    decode_cursor one_char (encode_cursor one_char written) ≡ ok written
decode_cursor-encode_cursor_example =
    decode_cursor-encode_cursor one_char one_char-IsPlatform written written-IsId
