-- ===== src/Sessions/Tests.antt =====
-- A login, its refresh, a replay and logouts of the sessions of one user.
use lag_money_manager.Prelude.{
  ℕ, ◌-◌, ◌≤◌, false, ◌≡◌, refl, none, some, [], ◌∷◌, arith, if◌then◌else◌, ◌==◌,
}
use lag_money_manager.Errors.{ok, err, Error}
use lag_money_manager.Sessions.{
  Sessions, find_by_id, write_row, new_session, create, replaced, rotate, count_reissue,
}
use lag_money_manager.Sessions.Service.{
  AuthUser, Users, RefreshPayload, revoked_error, tokens_of_lost_answer, refresh, logout_all,
  is_live_session_of, forgotten, refresh_reissue_limit,
}
use lag_money_manager.Sessions.Families.{IsClosed}
use lag_money_manager.Sessions.Logout.{quiet, logout_all-refresh}
use lag_money_manager.Sessions.Ended.{family_found}
use lag_money_manager.Sessions.Crossing.{after_creation, logging_out, refresh-logout}
use lag_money_manager.Sessions.Expiry.{IsWithin, refresh-IsWithin}
use lag_money_manager.Sessions.Reissue.{
  Presentation, count_of, pairs_given, pairs_given_bound, KeepsCount,
}
use lag_money_manager.Sessions.Tips.{tips}
use lag_money_manager.Sessions.Tip.{Site, OneTip, Step, OneTip-Step, rotates}

abbrev ana : AuthUser
ana = record { id = 1; token_version = 3; deleted_at = none; devices_reset_at = none }

abbrev users : Users
users i = if i == 1 then some ana else none

abbrev token : ℕ → RefreshPayload
token jti = record { user_id = 1; token_version = 3; jti = jti }

-- A login under 10, and its refreshes to 11 and 12.
abbrev logged_in : Sessions
logged_in = new_session 10 1 10 90000 ∷ []

abbrev refreshed : Sessions
refreshed = new_session 11 1 10 90000 ∷ replaced 11 2000 (new_session 10 1 10 90000) ∷ []

abbrev refreshed_twice : Sessions
refreshed_twice =
    new_session 12 1 10 90000
    ∷ replaced 12 3000 (new_session 11 1 10 90000)
    ∷ replaced 11 2000 (new_session 10 1 10 90000)
    ∷ []

rotated :
    refresh users 2000 11 quiet (some (token 10)) logged_in
    ≡ (ok (record { user_id = 1; sid = 10; refresh_token = token 11; seconds = 88 }), refreshed)
unfolding refresh rotate find_by_id write_row create
rotated = refl

given_again :
    (refresh users 4000 12 quiet (some (token 10)) refreshed).0
    ≡ ok (record { user_id = 1; sid = 10; refresh_token = token 11; seconds = 86 })
unfolding refresh rotate find_by_id write_row create tokens_of_lost_answer count_reissue
given_again = refl

found_tip : find_by_id 10 logged_in ≡ some (new_session 10 1 10 90000)
unfolding find_by_id
found_tip = refl

found_family : family_found (find_by_id 10 logged_in) ≡ some 10
unfolding find_by_id
found_family = refl

-- A logout with the very token that is rotated, once the next row was created.
refresh-logout_example :
    (e : Error) × (rows : Sessions) × (refresh users 2000 11
        (logging_out after_creation 2001 (token 10))
        (some (token 10))
        logged_in
      ≡ (err e, rows))
    × IsClosed 10 rows
refresh-logout_example =
    refresh-logout users 2000 2001 11 after_creation (token 10) (token 10) logged_in
      (new_session 10 1 10 90000) (ana, refl, refl) found_tip refl found_family refl

same_version_or_older : 3 ≤ 3
same_version_or_older = omega arith

logout_all-refresh_example :
    (refresh
        (logout_all 1 2000 users logged_in).0
        3000
        11
        quiet
        (some (token 10))
        (logout_all 1 2000 users logged_in).1
      ≡ (err revoked_error, (logout_all 1 2000 users logged_in).1))
    × (is_live_session_of
          (some (token 10))
          (forgotten 2000 ana)
          3000
          (logout_all 1 2000 users logged_in).1
        ≡ false)
logout_all-refresh_example =
    logout_all-refresh users ana 2000 3000 11 quiet (token 10) logged_in refl refl
      same_version_or_older

abbrev expiry : ℕ → ℕ
expiry family = 90000

refresh-IsWithin_example :
    IsWithin expiry 4000 (refresh users 4000 12 quiet (some (token 10)) refreshed)
refresh-IsWithin_example =
    refresh-IsWithin expiry users 4000 12 quiet (token 10) refreshed (λ rows h. h) (λ rows h. h)
      (λ rows h. h) (refl, (refl, tt))

abbrev alone : ℕ → Presentation
alone now = record { now = now; others = λ rows. rows }

alone_keeps : (now : ℕ) → KeepsCount 10 (alone now)
alone_keeps now rows = omega arith

pairs_given_bound_example :
    pairs_given ana
      (replaced 11 2000 (new_session 10 1 10 90000))
      (alone 4000 ∷ alone 5000 ∷ [])
      refreshed
    ≤ refresh_reissue_limit - count_of (find_by_id 10 refreshed)
pairs_given_bound_example =
    pairs_given_bound ana (replaced 11 2000 (new_session 10 1 10 90000))
      (alone 4000 ∷ alone 5000 ∷ []) refreshed (alone_keeps 4000, (alone_keeps 5000, tt))

abbrev before_refresh : Site
before_refresh = record { rows = logged_in; pending = [] }

abbrev mid_refresh : Site
mid_refresh = record {
  rows = replaced 11 2000 (new_session 10 1 10 90000) ∷ [];
  pending = new_session 11 1 10 90000 ∷ [];
}

OneTip-before : OneTip before_refresh
unfolding tips
OneTip-before family = ground arith

rotation : Step before_refresh mid_refresh
unfolding rotate find_by_id write_row
rotation = rotates 10 11 2000 1 refl

OneTip-Step_example : OneTip mid_refresh
OneTip-Step_example = OneTip-Step before_refresh mid_refresh rotation OneTip-before
