-- ===== src/Sync.antt =====
-- src/shared/syncCursor.ts and src/infrastructure/repositories/changeFeed.ts: positions in the order
-- of changes, which is by instant and then by id. Instants and ids are numbers, since they are only
-- compared; the text of a cursor is in Cursor, where an id is a text.
pub mod Cursor
pub mod Order
pub mod Feed
pub mod Inserts
pub mod Merge
pub mod Late
pub mod Filters
pub mod Keys
pub mod Page
pub mod Answer
pub mod Positions
pub mod Walk
mod Tests
use Prim.Native.Nat.{Ordering, compare}
use lag_money_manager.Prelude.{
  ℕ, Bool, true, false, ◌&&◌, ◌||◌, Option, none, some, ltb, leb, ◌==◌, if◌then◌else◌, is_none,
}
use lag_money_manager.Sorting.{or_else}

-- `ChangeCursor`. `resetAt` is left out, `null`, or an instant.
pub record ChangeCursor (Ident : Type 0) : Type 0 where
  pub updated_at : ℕ
  pub id : Option Ident
  pub reset_at : Option (Option ℕ)

-- `ChangeKey`
pub record ChangeKey : Type 0 where
  pub updated_at : Option ℕ
  pub id : ℕ

-- `stamp`: a row that was never saved counts as of the epoch.
abbrev pub stamp_of : Option ℕ → ℕ
stamp_of none = 0
stamp_of (some instant) = instant

abbrev pub stamp : ChangeKey → ℕ
stamp row = stamp_of row.updated_at

-- `compareChanges`
unfoldable pub compare_changes : ChangeKey → ChangeKey → Ordering
compare_changes a b = or_else (compare (stamp a) (stamp b)) (compare a.id b.id)

abbrev pub is_past : ℕ → Option ℕ → Bool
is_past id none = false
is_past id (some last) = ltb last id

-- `isAfterCursor`
unfoldable pub is_after_cursor : ChangeKey → Option (ChangeCursor ℕ) → Bool
is_after_cursor row none = true
is_after_cursor row (some cursor) =
    if stamp row == cursor.updated_at
    then is_past row.id cursor.id
    else ltb cursor.updated_at (stamp row)

-- `keysetAfter`, as a test on a stored row, which always has its instant.
abbrev pub keyset_id : ℕ → ChangeKey → Option ℕ → Bool
keyset_id instant row none = ltb instant (stamp row)
keyset_id instant row (some id) =
    ltb instant (stamp row) || ((stamp row == instant) && ltb id row.id)

unfoldable pub keyset_after : Option (ChangeCursor ℕ) → ChangeKey → Bool
keyset_after none row = true
keyset_after (some cursor) row = keyset_id cursor.updated_at row cursor.id

-- `!dataResetAt || cursor.updatedAt >= dataResetAt`
abbrev pub starts_after : ℕ → Option ℕ → Bool
starts_after instant none = true
starts_after instant (some reset) = leb reset instant

-- `(a?.getTime() ?? null) === (b?.getTime() ?? null)`
abbrev pub same_instant : Option ℕ → Option ℕ → Bool
same_instant none none = true
same_instant (some a) (some b) = a == b
same_instant _ _ = false

abbrev pub fits : ℕ → Option (Option ℕ) → Option ℕ → Bool
fits instant none data_reset_at = starts_after instant data_reset_at
fits instant (some reset_at) data_reset_at = same_instant reset_at data_reset_at

-- `cursorFitsReset`
unfoldable pub cursor_fits_reset : {Ident : Type 0} → ChangeCursor Ident → Option ℕ → Bool
cursor_fits_reset cursor data_reset_at = fits cursor.updated_at cursor.reset_at data_reset_at
