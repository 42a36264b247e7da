-- ===== src/Sync/Feed.antt =====
-- One page of the change feed: `changesSince` of the repositories (src/infrastructure/repositories/
-- changeFeed.ts) and `getChanges` of src/app/services/SyncService.ts. A source is the stored rows of one
-- kind that the caller may read, by their keys; what a row says besides is left out. The rows of joined
-- groups (JoinedGroupService.changes), which a cursor can add to, and the received invitations, merged
-- of two queries, are taken as such sources.
use Prim.Native.Nat.{Ordering}
use lag_money_manager.Prelude.{
  ℕ, zero, suc, ◌-◌, Bool, true, false, not, Option, none, some, List, [], ◌∷◌, ◌++◌, map, length,
  take, get_elem?, min, ltb, if◌then◌else◌, filter,
}
use lag_money_manager.Sorting.{sort}
use lag_money_manager.Errors.{Result, ok, ◌>>◌, throw_if, api, conflict, resync_required}
use lag_money_manager.Sync.{
  ChangeCursor, ChangeKey, stamp, compare_changes, is_after_cursor, keyset_after, cursor_fits_reset,
}

-- All the rows of a list of sources.
abbrev pub concat {ℓ} : {A : Type ℓ} → List (List A) → List A
concat [] = []
concat (xs ∷ xss) = xs ++ concat xss

-- `changesSince`: the keyset, `CHANGE_FEED_SORT` and the limit.
unfoldable pub changes_since : Option (ChangeCursor ℕ) → ℕ → List ChangeKey → List ChangeKey
changes_since cursor limit rows =
    take limit (sort compare_changes (filter (keyset_after cursor) rows))

-- The caller, as a row of the feed, and when its data was last erased.
pub record SyncUser : Type 0 where
  pub key : ChangeKey
  pub data_reset_at : Option ℕ

-- `SYNC_OVERLAP_MS`
abbrev pub sync_overlap_ms : ℕ
sync_overlap_ms = 60000

-- `user && isAfterCursor(user, cursor) ? [user] : []`
abbrev pub user_rows : Option SyncUser → Option (ChangeCursor ℕ) → List ChangeKey
user_rows none cursor = []
user_rows (some user) cursor = if is_after_cursor user.key cursor then user.key ∷ [] else []

-- What every source answers, the caller's own row first.
unfoldable pub fetched :
    Option SyncUser → Option (ChangeCursor ℕ) → ℕ → List (List ChangeKey) → List (List ChangeKey)
fetched user cursor limit sources =
    user_rows user cursor ∷ map (changes_since cursor (suc limit)) sources

-- `changeKeyOf`
abbrev pub change_key_of : ChangeKey → ChangeKey
change_key_of row = record { updated_at = some (stamp row); id = row.id }

-- `ordered`
unfoldable pub ordered : List (List ChangeKey) → List ChangeKey
ordered answers = sort compare_changes (map change_key_of (concat answers))

-- `ordered[n - 1]`
abbrev pub last_of {ℓ} : {A : Type ℓ} → ℕ → List A → Option A
last_of zero rows = none
last_of (suc n) rows = get_elem? rows n

-- `compareChanges(row, last) <= 0`
abbrev pub is_at_most : ChangeKey → ChangeKey → Bool
is_at_most last row = elim (compare_changes row last) [ Ordering.gt ↦ false | _ ↦ true ]

-- `upTo`
unfoldable pub up_to : Option ChangeKey → List ChangeKey → List ChangeKey
up_to none rows = []
up_to (some last) rows = filter (is_at_most last) rows

-- The position a page hands back: its last row, or the watermark of a run that is over.
abbrev pub next_position : ℕ → Bool → Option ChangeKey → Option ℕ → ChangeCursor ℕ
next_position server_time true (some last) reset_at = record {
  updated_at = stamp last;
  id = some last.id;
  reset_at = some reset_at;
}
next_position server_time more last reset_at = record {
  updated_at = server_time - sync_overlap_ms;
  id = none;
  reset_at = some reset_at;
}

-- `SyncChangesResult`
pub record SyncPage : Type 0 where
  pub changes : List (List ChangeKey)
  pub count : ℕ
  pub has_more : Bool
  pub next_cursor : ChangeCursor ℕ

abbrev pub reset_of : Option SyncUser → Option ℕ
reset_of none = none
reset_of (some user) = user.data_reset_at

-- `cursor && user && !cursorFitsReset(...)`
abbrev pub must_resync : Option SyncUser → Option (ChangeCursor ℕ) → Bool
must_resync (some user) (some cursor) = not (cursor_fits_reset cursor user.data_reset_at)
must_resync _ _ = false

-- The page out of what the sources answered.
unfoldable pub page_of : ℕ → Option ℕ → ℕ → List (List ChangeKey) → SyncPage
page_of server_time reset_at limit answers =
    let rows = ordered answers in
    let more = ltb limit (length rows) in
    let last = last_of (min limit (length rows)) rows in
    record {
      changes = map (up_to last) answers;
      count = min (length rows) limit;
      has_more = more;
      next_cursor = next_position server_time more last reset_at;
    }

-- `getChanges`
unfoldable pub get_changes :
    ℕ → Option SyncUser → Option (ChangeCursor ℕ) → ℕ → List (List ChangeKey) → Result SyncPage
get_changes server_time user cursor limit sources = do
  throw_if (must_resync user cursor) (api conflict resync_required)
  ok (page_of server_time (reset_of user) limit (fetched user cursor limit sources))
