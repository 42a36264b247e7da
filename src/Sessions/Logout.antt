-- ===== src/Sessions/Logout.antt =====
-- What ends a family in src/app/services/AuthService.ts: a replay of a token that was used up, and a
-- logout everywhere.
use lag_money_manager.Prelude.{
  ℕ, suc, ◌≤◌, true, false, ◌≡◌, refl, Option, none, some, ◌==◌, is_none, is_some, Bool-cases, inl,
  inr, arith,
}
use lag_money_manager.Errors.{err}
use lag_money_manager.Sessions.{RefreshSession, Sessions}
use lag_money_manager.Sessions.Service.{
  AuthUser, Users, RefreshPayload, Meanwhile, revoked_error, is_touched, refresh, forget_devices,
  logout_all, is_live_session_of, forgotten,
}

-- A user whose tokens have the version that a payload says.
abbrev pub IsCurrent : Users → RefreshPayload → Type 0
IsCurrent users payload =
    (user : AuthUser) × (users payload.user_id ≡ some user)
    × (user.token_version ≡ payload.token_version)

-- The row of a token was rotated, and is not revoked.
abbrev pub IsSpent : RefreshSession → Type 0
IsSpent row = (is_some row.replaced_by ≡ true) × (is_none row.revoked_at ≡ true)

-- A successor is gone, revoked, or replaced itself.
abbrev pub IsUsed : Option RefreshSession → Type 0
IsUsed none = Unit
IsUsed (some successor) = is_touched successor ≡ true

-- Nothing else is written meanwhile.
abbrev pub quiet : Meanwhile
quiet = record {
  after_rotate = λ rows. rows;
  after_count = λ rows. rows;
  after_create = λ rows. rows;
}

-- After a logout everywhere, no refresh token from before gives a pair or counts as a live session, and the rows stay as they are. The account is not deleted.
pub logout_all-refresh :
    (users : Users) (user : AuthUser) (now later new_jti : ℕ) (m : Meanwhile)
    (payload : RefreshPayload) (rows : Sessions)
    → users payload.user_id ≡ some user
    → user.deleted_at ≡ none
    → payload.token_version ≤ user.token_version
    → (refresh
          (logout_all payload.user_id now users rows).0
          later
          new_jti
          m
          (some payload)
          (logout_all payload.user_id now users rows).1
        ≡ (err revoked_error, (logout_all payload.user_id now users rows).1))
      × (is_live_session_of
            (some payload)
            (forgotten now user)
            later
            (logout_all payload.user_id now users rows).1
          ≡ false)
unfolding refresh logout_all forget_devices is_live_session_of
logout_all-refresh users user now later new_jti m payload rows found there version =
    let same : (payload.user_id == payload.user_id) ≡ true = ground arith in
    let newer : (suc user.token_version == payload.token_version) ≡ false = ground arith in
    let newer' : (payload.token_version == suc user.token_version) ≡ false = ground arith in
    let alive : is_none user.deleted_at ≡ true = rw there refl in
    let whose = Bool-cases (payload.user_id == user.id) in
    (rw (same, found, alive) (rw newer), elim whose [ inl e ↦ rw (e, newer') | inr e ↦ rw e ])
