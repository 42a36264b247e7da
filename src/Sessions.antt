-- ===== src/Sessions.antt =====
-- src/infrastructure/repositories/refreshSession/RefreshSessionRepository.ts: the rows of refresh tokens, one
-- for each token, chained in families by `replaced_by`. Ids and instants are numbers. `_id` is unique, so a query
-- for it is of the first row that has it. The user agent and the listing for the user are left out, and so is
-- what the database deletes by itself once a row has expired.
pub mod Service
pub mod Families
pub mod Tips
pub mod Tip
pub mod Expiry
pub mod Reissue
pub mod Logout
pub mod Ended
pub mod Crossing
mod Tests
use lag_money_manager.Prelude.{
  ℕ, suc, Bool, true, false, ◌&&◌, Option, none, some, List, [], ◌∷◌, ◌==◌, any, is_none, is_some,
  if◌then◌else◌,
}
use lag_money_manager.Errors.{Result, ok, err, duplicate_key, row_id}

-- `RefreshSession`
pub record RefreshSession : Type 0 where
  pub jti : ℕ
  pub user_id : ℕ
  pub family_id : ℕ
  pub expires_at : ℕ
  pub replaced_by : Option ℕ
  pub revoked_at : Option ℕ
  pub last_used_at : Option ℕ
  pub reissue_count : ℕ
  pub reissued_at : Option ℕ

abbrev pub Sessions : Type 0
Sessions = List RefreshSession

abbrev pub has_jti : ℕ → RefreshSession → Bool
has_jti jti row = row.jti == jti

-- `findById`
unfoldable pub find_by_id : ℕ → Sessions → Option RefreshSession
find_by_id jti [] = none
find_by_id jti (row ∷ rows) =
    let rest = find_by_id jti rows in if has_jti jti row then some row else rest

-- The row of an id is written.
unfoldable pub write_row : ℕ → (RefreshSession → RefreshSession) → Sessions → Sessions
write_row jti change [] = []
write_row jti change (row ∷ rows) =
    let rest = write_row jti change rows in
    if has_jti jti row then change row ∷ rows else row ∷ rest

-- `updateMany`
unfoldable pub write_all :
    (RefreshSession → Bool) → (RefreshSession → RefreshSession) → Sessions → Sessions
write_all p change [] = []
write_all p change (row ∷ rows) =
    let rest = write_all p change rows in if p row then change row ∷ rest else row ∷ rest

-- What `create` stores, with the defaults of the schema.
abbrev pub new_session : ℕ → ℕ → ℕ → ℕ → RefreshSession
new_session jti user family expires = record {
  jti = jti;
  user_id = user;
  family_id = family;
  expires_at = expires;
  replaced_by = none;
  revoked_at = none;
  last_used_at = none;
  reissue_count = 0;
  reissued_at = none;
}

-- `create`
unfoldable pub create : RefreshSession → Sessions → Result Sessions
create row rows = if any (has_jti row.jti) rows then err (duplicate_key row_id) else ok (row ∷ rows)

-- A write of the row of an id, if it passes, and the row it leaves.
abbrev pub update_found :
    (RefreshSession → Bool)
    → (RefreshSession → RefreshSession)
    → Option RefreshSession
    → Sessions
    → Option RefreshSession × Sessions
update_found p change none rows = (none, rows)
update_found p change (some row) rows =
    if p row then (some (change row), write_row row.jti change rows) else (none, rows)

-- A row that nothing replaced and nobody revoked: the tip of its chain.
abbrev pub is_tip : RefreshSession → Bool
is_tip row = is_none row.replaced_by && is_none row.revoked_at

abbrev pub replaced : ℕ → ℕ → RefreshSession → RefreshSession
replaced next now row = record row { replaced_by = some next; last_used_at = some now }

-- `rotate`
unfoldable pub rotate : ℕ → ℕ → ℕ → Sessions → Option RefreshSession × Sessions
rotate jti next now rows = update_found is_tip (replaced next now) (find_by_id jti rows) rows

abbrev pub is_replaced : RefreshSession → Bool
is_replaced row = is_some row.replaced_by && is_none row.revoked_at

abbrev pub counted : ℕ → RefreshSession → RefreshSession
counted now row = record row { reissue_count = suc row.reissue_count; reissued_at = some now }

-- `countReissue`
unfoldable pub count_reissue : ℕ → ℕ → Sessions → Option RefreshSession × Sessions
count_reissue jti now rows = update_found is_replaced (counted now) (find_by_id jti rows) rows

abbrev pub revoked : ℕ → RefreshSession → RefreshSession
revoked now row = record row { revoked_at = some now }

abbrev pub is_live_in : ℕ → RefreshSession → Bool
is_live_in family row = (row.family_id == family) && is_none row.revoked_at

-- `revokeFamily`
unfoldable pub revoke_family : ℕ → ℕ → Sessions → Sessions
revoke_family family now rows = write_all (is_live_in family) (revoked now) rows

abbrev pub is_live_of : ℕ → RefreshSession → Bool
is_live_of user row = (row.user_id == user) && is_none row.revoked_at

-- `revokeAllForUser`
unfoldable pub revoke_all_for_user : ℕ → ℕ → Sessions → Sessions
revoke_all_for_user user now rows = write_all (is_live_of user) (revoked now) rows

abbrev pub is_owned : ℕ → ℕ → RefreshSession → Bool
is_owned user family row = (row.family_id == family) && (row.user_id == user)

-- `revokeFamilyForUser`
unfoldable pub revoke_family_for_user : ℕ → ℕ → ℕ → Sessions → Bool × Sessions
revoke_family_for_user user family now rows =
    if any (is_owned user family) rows
    then (
      true,
      write_all (λ row. is_owned user family row && is_none row.revoked_at) (revoked now) rows,
    )
    else (false, rows)
