-- ===== src/Sessions/Service.antt =====
-- src/app/services/AuthService.ts: refresh tokens that are rotated, given again and refused, and logouts. A token is
-- what it says once `jwt.verify` has passed it, none if it has not; signing is left out. One instant stands
-- for the clock of a call. Between two calls of the database other requests may write: `Meanwhile`.
use lag_money_manager.Prelude.{
  ℕ, suc, ◌-◌, ◌/◌, Bool, true, false, ◌&&◌, ◌||◌, Option, none, some, ◌==◌, is_none, is_some,
  if◌then◌else◌, ltb, leb,
}
use lag_money_manager.Errors.{
  Result, ok, err, Error, api, unauthorized, not_found, no_code, refresh_invalid, refresh_revoked,
}
use lag_money_manager.Sessions.{
  RefreshSession, Sessions, find_by_id, new_session, create, rotate, count_reissue, revoke_family,
  revoke_all_for_user, revoke_family_for_user,
}

-- The user, as far as its sessions go.
pub record AuthUser : Type 0 where
  pub id : ℕ
  pub token_version : ℕ
  pub deleted_at : Option ℕ
  pub devices_reset_at : Option ℕ

abbrev pub Users : Type 0
Users = ℕ → Option AuthUser

-- `RefreshPayload`
pub record RefreshPayload : Type 0 where
  pub user_id : ℕ
  pub token_version : ℕ
  pub jti : ℕ

-- `AuthTokens`: whom the pair is for, the family of its access token (`sid`), and the refresh token with
-- the seconds it lasts.
pub record AuthTokens : Type 0 where
  pub user_id : ℕ
  pub sid : ℕ
  pub refresh_token : RefreshPayload
  pub seconds : ℕ

-- `LostAnswer`
pub data LostAnswer : Type 0 where
  reissued : AuthTokens → ℕ → LostAnswer
  spent : LostAnswer
  replay : LostAnswer

-- `REFRESH_REISSUE_LIMIT`
abbrev pub refresh_reissue_limit : ℕ
refresh_reissue_limit = 10

abbrev pub revoked_error : Error
revoked_error = api unauthorized refresh_revoked

abbrev pub invalid_error : Error
invalid_error = api unauthorized refresh_invalid

-- What other requests write between two calls of this one.
pub record Meanwhile : Type 0 where
  pub after_rotate : Sessions → Sessions
  pub after_count : Sessions → Sessions
  pub after_create : Sessions → Sessions

-- `Math.floor((expiresAt - now) / 1000)`, 0 where that is negative.
abbrev pub remaining_seconds : ℕ → ℕ → ℕ
remaining_seconds expires now = (expires - now) / 1000

abbrev pub tokens_for : AuthUser → ℕ → ℕ → ℕ → AuthTokens
tokens_for user jti family seconds = record {
  user_id = user.id;
  sid = family;
  refresh_token = record { user_id = user.id; token_version = user.token_version; jti = jti };
  seconds = seconds;
}

-- A call that throws leaves what it wrote.
abbrev pub Outcome : Type 0 → Type 0
Outcome A = Result A × Sessions

abbrev pub is_touched : RefreshSession → Bool
is_touched row = is_some row.revoked_at || is_some row.replaced_by

-- What the row of the successor makes of a lost answer.
abbrev pub judge_successor : AuthUser → ℕ → ℕ → Option RefreshSession → LostAnswer
judge_successor user now count none = replay
judge_successor user now count (some successor) =
    let seconds = remaining_seconds successor.expires_at now in
    if is_touched successor
    then replay
    else if ltb refresh_reissue_limit count
    then spent
    else if leb seconds 0
    then replay
    else reissued (tokens_for user successor.jti successor.family_id seconds) count

abbrev pub judge_counted :
    AuthUser
    → ℕ
    → ℕ
    → (Sessions → Sessions)
    → Option RefreshSession × Sessions
    → LostAnswer × Sessions
judge_counted user now next others (none, rows) = (replay, rows)
judge_counted user now next others (some row, rows) =
    (judge_successor user now row.reissue_count (find_by_id next (others rows)), others rows)

abbrev pub answer_again :
    AuthUser → ℕ → ℕ → Option ℕ → (Sessions → Sessions) → Sessions → LostAnswer × Sessions
answer_again user now jti none others rows = (replay, rows)
answer_again user now jti (some next) others rows =
    judge_counted user now next others (count_reissue jti now rows)

-- `tokensOfLostAnswer`
unfoldable pub tokens_of_lost_answer :
    AuthUser → RefreshSession → ℕ → (Sessions → Sessions) → Sessions → LostAnswer × Sessions
tokens_of_lost_answer user stale now others rows =
    answer_again user now stale.jti stale.replaced_by others rows

-- What `refresh` makes of a lost answer.
abbrev pub settle_lost : ℕ → ℕ → LostAnswer × Sessions → Outcome AuthTokens
settle_lost family now (reissued tokens count, rows) = (ok tokens, rows)
settle_lost family now (spent, rows) = (err revoked_error, rows)
settle_lost family now (replay, rows) = (err revoked_error, revoke_family family now rows)

module _ (user : AuthUser) (now : ℕ) (new_jti : ℕ) (meanwhile : Meanwhile) where
  -- A token whose row could not be rotated.
  abbrev pub refuse_or_reissue : Option RefreshSession → Sessions → Outcome AuthTokens
  refuse_or_reissue none rows = (err invalid_error, rows)
  refuse_or_reissue (some stale) rows =
      if is_some stale.revoked_at
      then (err revoked_error, rows)
      else settle_lost stale.family_id now
          (tokens_of_lost_answer user stale now meanwhile.after_count rows)

  -- The parent row, read again.
  abbrev pub confirm : RefreshSession → Option RefreshSession → Sessions → Outcome AuthTokens
  confirm session none rows = (err revoked_error, revoke_family session.family_id now rows)
  confirm session (some rotated) rows =
      if is_some rotated.revoked_at
      then (err revoked_error, revoke_family session.family_id now rows)
      else (
        ok (tokens_for user new_jti session.family_id (remaining_seconds session.expires_at now)),
        rows,
      )

  abbrev pub confirm_created : RefreshSession → ℕ → Sessions → Result Sessions → Outcome AuthTokens
  confirm_created session jti before (err e) = (err e, before)
  confirm_created session jti before (ok rows) =
      let seen = meanwhile.after_create rows in confirm session (find_by_id jti seen) seen

  abbrev pub create_next : RefreshSession → ℕ → Sessions → Outcome AuthTokens
  create_next session jti rows =
      if leb (remaining_seconds session.expires_at now) 0
      then (err invalid_error, revoke_family session.family_id now rows)
      else confirm_created session jti rows
          (create (new_session new_jti user.id session.family_id session.expires_at) rows)

  abbrev pub rotated_or_stale : ℕ → Option RefreshSession × Sessions → Outcome AuthTokens
  rotated_or_stale jti (none, rows) =
      let seen = meanwhile.after_rotate rows in refuse_or_reissue (find_by_id jti seen) seen
  rotated_or_stale jti (some session, rows) = create_next session jti (meanwhile.after_rotate rows)

abbrev pub refresh_as :
    ℕ → ℕ → Meanwhile → RefreshPayload → Option AuthUser → Sessions → Outcome AuthTokens
refresh_as now new_jti meanwhile payload none rows = (err invalid_error, rows)
refresh_as now new_jti meanwhile payload (some user) rows =
    if user.token_version == payload.token_version
    then rotated_or_stale user now new_jti meanwhile payload.jti
        (rotate payload.jti new_jti now rows)
    else (err revoked_error, rows)

-- `refresh`
unfoldable pub refresh :
    Users → ℕ → ℕ → Meanwhile → Option RefreshPayload → Sessions → Outcome AuthTokens
refresh users now new_jti meanwhile none rows = (err invalid_error, rows)
refresh users now new_jti meanwhile (some payload) rows =
    refresh_as now new_jti meanwhile payload (users payload.user_id) rows

abbrev pub end_family : ℕ → Option RefreshSession → Sessions → Sessions
end_family now none rows = rows
end_family now (some session) rows = revoke_family session.family_id now rows

-- `logout`
unfoldable pub logout : ℕ → Option RefreshPayload → Sessions → Outcome (Unit {0})
logout now none rows = (err invalid_error, rows)
logout now (some payload) rows = (ok tt, end_family now (find_by_id payload.jti rows) rows)

abbrev pub forgotten : ℕ → AuthUser → AuthUser
forgotten now user = record user {
  devices_reset_at = some now;
  token_version = suc user.token_version;
}

abbrev pub forget : ℕ → Option AuthUser → Option AuthUser
forget now none = none
forget now (some user) = if is_none user.deleted_at then some (forgotten now user) else some user

-- `UserRepository.forgetDevices`, what it leaves of the users.
unfoldable pub forget_devices : ℕ → ℕ → Users → Users
forget_devices id now users i = if i == id then forget now (users i) else users i

-- `logoutAll`, without the device token that it answers.
unfoldable pub logout_all : ℕ → ℕ → Users → Sessions → Users × Sessions
logout_all user now users rows = (forget_devices user now users, revoke_all_for_user user now rows)

abbrev pub is_live_row : AuthUser → ℕ → Option RefreshSession → Bool
is_live_row user now none = false
is_live_row user now (some session) =
    (session.user_id == user.id)
    && is_none session.replaced_by
    && is_none session.revoked_at
    && ltb now session.expires_at

-- `isLiveSessionOf`
unfoldable pub is_live_session_of : Option RefreshPayload → AuthUser → ℕ → Sessions → Bool
is_live_session_of none user now rows = false
is_live_session_of (some payload) user now rows =
    if (payload.user_id == user.id) && (payload.token_version == user.token_version)
    then is_live_row user now (find_by_id payload.jti rows)
    else false

-- `revokeSession`
abbrev pub owned_or_not_found : Bool → Result (Unit {0})
owned_or_not_found true = ok tt
owned_or_not_found false = err (api not_found no_code)

unfoldable pub revoke_session : ℕ → ℕ → ℕ → Sessions → Outcome (Unit {0})
revoke_session user family now rows =
    let found = revoke_family_for_user user family now rows in (owned_or_not_found found.0, found.1)
