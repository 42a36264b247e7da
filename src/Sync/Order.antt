-- ===== src/Sync/Order.antt =====
-- The order of changes of src/shared/syncCursor.ts, and the positions in it.
use lag_money_manager.Prelude.{ℕ, ◌<◌, true, ◌≡◌, refl, ◌⊎◌, ◌↔◌, Option, none, some, arith}
use lag_money_manager.Sorting.{is_less}
use lag_money_manager.Sync.{
  ChangeCursor, ChangeKey, stamp, compare_changes, is_after_cursor, keyset_after,
}

-- A row comes before another: its instant is earlier, or the same and its id is smaller.
infix 50 ◌≺◌
abbrev pub ◌≺◌ : ChangeKey → ChangeKey → Type 0
a ≺ b = (stamp a < stamp b) ⊎ ((stamp a ≡ stamp b) × (a.id < b.id))

pub is_less_iff : (a b : ChangeKey) → (is_less (compare_changes a b) ≡ true) ↔ (a ≺ b)
unfolding compare_changes
is_less_iff a b = (λ h. ground arith, λ h. ground arith)

-- The position of a row.
abbrev pub cursor_at : ChangeKey → ChangeCursor ℕ
cursor_at row = record { updated_at = stamp row; id = some row.id; reset_at = none }

-- The filter that the database reads by, and the test of the service, let the same rows through.
pub keyset_after-is_after_cursor :
    (cursor : Option (ChangeCursor ℕ)) (row : ChangeKey)
    → keyset_after cursor row ≡ is_after_cursor row cursor
unfolding keyset_after is_after_cursor
keyset_after-is_after_cursor none row = refl
keyset_after-is_after_cursor (some cursor) row = ground arith

pub is_after_cursor_iff :
    (a b : ChangeKey) → (is_after_cursor b (some (cursor_at a)) ≡ true) ↔ (a ≺ b)
unfolding is_after_cursor
is_after_cursor_iff a b = (λ h. ground arith, λ h. ground arith)

pub ≺_trans : (a b c : ChangeKey) → a ≺ b → b ≺ c → a ≺ c
≺_trans a b c h k = ground arith

pub ≺_total : (a b : ChangeKey) → (a ≺ b) ⊎ ((b ≺ a) ⊎ ((stamp a ≡ stamp b) × (a.id ≡ b.id)))
≺_total a b = ground arith
