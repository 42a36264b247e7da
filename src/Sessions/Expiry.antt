-- ===== src/Sessions/Expiry.antt =====
-- How long the tokens of src/app/services/AuthService.ts last: until their family expires, and no longer.
use lag_money_manager.Prelude.{
  ℕ, ◌+◌, ◌*◌, ◌≤◌, ◌<◌, Bool, false, ◌≡◌, refl, Option, none, some, ◌∷◌, ◌==◌, ltb, leb, is_some,
  Bool-cases, inl, inr, arith, All, any,
}
use lag_money_manager.Errors.{ok, err}
use lag_money_manager.Sessions.{
  RefreshSession, Sessions, has_jti, find_by_id, write_row, new_session, create, update_found,
  is_tip, rotate, is_replaced, replaced, counted, count_reissue, revoked, is_live_in, revoke_family,
}
use lag_money_manager.Sessions.Service.{
  AuthUser, Users, RefreshPayload, AuthTokens, Meanwhile, LostAnswer, reissued, spent, replay,
  refresh_reissue_limit, remaining_seconds, tokens_for, Outcome, is_touched, judge_successor,
  judge_counted, answer_again, tokens_of_lost_answer, settle_lost, refuse_or_reissue, confirm,
  create_next, rotated_or_stale, refresh_as, refresh,
}
use lag_money_manager.Sessions.Families.{All-write_row, All-write_all, All-find}

module _ (expiry : ℕ → ℕ) where
  -- Every row expires when its family does.
  abbrev pub ExpireTogether : Sessions → Type 0
  ExpireTogether rows = All (λ row. row.expires_at ≡ expiry row.family_id) rows

  -- A pair that lasts, and no longer than its family.
  abbrev pub LastsWithin : ℕ → AuthTokens → Type 0
  LastsWithin now tokens = (0 < tokens.seconds) × (now + tokens.seconds * 1000 ≤ expiry tokens.sid)

  -- What is answered, and what is left, are within the expiry of the families.
  abbrev pub IsWithin : ℕ → Outcome AuthTokens → Type 0
  IsWithin now (ok tokens, rows) = LastsWithin now tokens × ExpireTogether rows
  IsWithin now (err e, rows) = ExpireTogether rows

  abbrev IsAnswerWithin : ℕ → LostAnswer × Sessions → Type 0
  IsAnswerWithin now (reissued tokens count, rows) = LastsWithin now tokens × ExpireTogether rows
  IsAnswerWithin now (spent, rows) = ExpireTogether rows
  IsAnswerWithin now (replay, rows) = ExpireTogether rows

  abbrev pub Keeps : (Sessions → Sessions) → Type 0
  Keeps others = (rows : Sessions) → ExpireTogether rows → ExpireTogether (others rows)

  lasts :
      (user : AuthUser) (jti now : ℕ) (row : RefreshSession)
      → row.expires_at ≡ expiry row.family_id
      → leb (remaining_seconds row.expires_at now) 0 ≡ false
      → LastsWithin now (tokens_for user jti row.family_id (remaining_seconds row.expires_at now))
  lasts user jti now row h k = (ground arith, ground arith)

  revoke-ExpireTogether :
      (family now : ℕ) (rows : Sessions)
      → ExpireTogether rows
      → ExpireTogether (revoke_family family now rows)
  unfolding revoke_family
  revoke-ExpireTogether family now rows h =
      All-write_all (λ row. row.expires_at ≡ expiry row.family_id) (is_live_in family) (revoked now)
        (λ row k. k) rows h

  update-ExpireTogether :
      (p : RefreshSession → Bool) (change : RefreshSession → RefreshSession)
      (found : Option RefreshSession) (rows : Sessions)
      → ((row : RefreshSession)
          → row.expires_at ≡ expiry row.family_id
          → (change row).expires_at ≡ expiry (change row).family_id)
      → ExpireTogether rows
      → ExpireTogether (update_found p change found rows).1
  update-ExpireTogether p change none rows keeps h = h
  update-ExpireTogether p change (some row) rows keeps h = elim (Bool-cases (p row)) [
    | inl e ↦
        rw e (All-write_row (λ r. r.expires_at ≡ expiry r.family_id) row.jti change keeps rows h)
    | inr e ↦ rw e h
  ]

  judge-within :
      (user : AuthUser) (now count : ℕ) (successor : Option RefreshSession) (rows : Sessions)
      → ((row : RefreshSession) → successor ≡ some row → row.expires_at ≡ expiry row.family_id)
      → ExpireTogether rows
      → IsAnswerWithin now (judge_successor user now count successor, rows)
  judge-within user now count none rows h k = k
  judge-within user now count (some row) rows h k = elim (Bool-cases (is_touched row)) [
    | inl e ↦ rw e k
    | inr e ↦ elim (Bool-cases (ltb refresh_reissue_limit count)) [
      | inl f ↦ rw (e, f) k
      | inr f ↦ elim (Bool-cases (leb (remaining_seconds row.expires_at now) 0)) [
        | inl g ↦ rw (e, f, g) k
        | inr g ↦ rw (e, f, g) (lasts user row.jti now row (h row refl) g, k)
      ]
    ]
  ]

  counted-within :
      (user : AuthUser) (now next : ℕ) (others : Sessions → Sessions)
      (found : Option RefreshSession × Sessions)
      → Keeps others
      → ExpireTogether found.1
      → IsAnswerWithin now (judge_counted user now next others found)
  counted-within user now next others (none, rows) keeps h = h
  counted-within user now next others (some row, rows) keeps h =
      let k = keeps rows h in
      judge-within user now row.reissue_count (find_by_id next (others rows)) (others rows)
        (λ r f. All-find (λ r. r.expires_at ≡ expiry r.family_id) next (others rows) k f) k

  lost-within :
      (user : AuthUser) (now jti : ℕ) (next : Option ℕ) (others : Sessions → Sessions)
      (rows : Sessions)
      → Keeps others
      → ExpireTogether rows
      → IsAnswerWithin now (answer_again user now jti next others rows)
  unfolding count_reissue
  lost-within user now jti none others rows keeps h = h
  lost-within user now jti (some next) others rows keeps h =
      counted-within user now next others (count_reissue jti now rows) keeps
        (update-ExpireTogether is_replaced (counted now) (find_by_id jti rows) rows (λ r k. k) h)

  settle-IsWithin :
      (family now : ℕ) (answer : LostAnswer × Sessions)
      → IsAnswerWithin now answer
      → IsWithin now (settle_lost family now answer)
  settle-IsWithin family now (reissued tokens count, rows) h = h
  settle-IsWithin family now (spent, rows) h = h
  settle-IsWithin family now (replay, rows) h = revoke-ExpireTogether family now rows h

  module _ (user : AuthUser) (now new_jti : ℕ) (m : Meanwhile) (keeps_count : Keeps m.after_count)
      (keeps_create : Keeps m.after_create) where
    stale-IsWithin :
        (stale : Option RefreshSession) (rows : Sessions)
        → ExpireTogether rows
        → IsWithin now (refuse_or_reissue user now new_jti m stale rows)
    unfolding tokens_of_lost_answer
    stale-IsWithin none rows h = h
    stale-IsWithin (some stale) rows h = elim (Bool-cases (is_some stale.revoked_at)) [
      | inl e ↦ rw e h
      | inr e ↦ rw e (
          settle-IsWithin stale.family_id now
            (answer_again user now stale.jti stale.replaced_by m.after_count rows)
            (lost-within user now stale.jti stale.replaced_by m.after_count rows keeps_count h))
    ]

    confirm-IsWithin :
        (session : RefreshSession) (seen : Option RefreshSession) (rows : Sessions)
        → session.expires_at ≡ expiry session.family_id
        → leb (remaining_seconds session.expires_at now) 0 ≡ false
        → ExpireTogether rows
        → IsWithin now (confirm user now new_jti m session seen rows)
    confirm-IsWithin session none rows e l h = revoke-ExpireTogether session.family_id now rows h
    confirm-IsWithin session (some row) rows e l h = elim (Bool-cases (is_some row.revoked_at)) [
      | inl r ↦ rw r (revoke-ExpireTogether session.family_id now rows h)
      | inr r ↦ rw r (lasts user new_jti now session e l, h)
    ]

    next-IsWithin :
        (session : RefreshSession) (jti : ℕ) (rows : Sessions)
        → session.expires_at ≡ expiry session.family_id
        → ExpireTogether rows
        → IsWithin now (create_next user now new_jti m session jti rows)
    unfolding create
    next-IsWithin session jti rows e h =
        elim (Bool-cases (leb (remaining_seconds session.expires_at now) 0)) [
          | inl l ↦ rw l (revoke-ExpireTogether session.family_id now rows h)
          | inr l ↦ elim (Bool-cases (any (has_jti new_jti) rows)) [
            | inl a ↦ rw (l, a) h
            | inr a ↦
                (let made =
                    new_session new_jti user.id session.family_id session.expires_at ∷ rows in
                  let seen = m.after_create made in
                  rw (l, a)
                    (confirm-IsWithin session (find_by_id jti seen) seen e l
                      (keeps_create made (e, h))))
          ]
        ]

rotated-IsWithin :
    (expiry : ℕ → ℕ) (user : AuthUser) (now new_jti : ℕ) (m : Meanwhile) (jti : ℕ)
    (found : Option RefreshSession) (rows : Sessions)
    → Keeps expiry m.after_rotate
    → Keeps expiry m.after_count
    → Keeps expiry m.after_create
    → ((row : RefreshSession) → found ≡ some row → row.expires_at ≡ expiry row.family_id)
    → ExpireTogether expiry rows
    → IsWithin expiry now (
        rotated_or_stale user now new_jti m jti
          (update_found is_tip (replaced new_jti now) found rows))
rotated-IsWithin expiry user now new_jti m jti none rows after_rotate after_count after_create f h =
    stale-IsWithin expiry user now new_jti m after_count after_create
      (find_by_id jti (m.after_rotate rows)) (m.after_rotate rows) (after_rotate rows h)
rotated-IsWithin expiry user now new_jti m jti (some row) rows after_rotate after_count after_create
      f h =
    elim (Bool-cases (is_tip row)) [
      | inl e ↦
          (let left = write_row row.jti (replaced new_jti now) rows in
            rw e (
              next-IsWithin expiry user now new_jti m after_count after_create
                (replaced new_jti now row) jti (m.after_rotate left) (f row refl)
                (after_rotate left (
                  All-write_row (λ r. r.expires_at ≡ expiry r.family_id) row.jti
                    (replaced new_jti now) (λ r k. k) rows h))))
      | inr e ↦ rw e (
          stale-IsWithin expiry user now new_jti m after_count after_create
            (find_by_id jti (m.after_rotate rows)) (m.after_rotate rows) (after_rotate rows h))
    ]

as-IsWithin :
    (expiry : ℕ → ℕ) (now new_jti : ℕ) (m : Meanwhile) (payload : RefreshPayload) (rows : Sessions)
    (user : Option AuthUser)
    → Keeps expiry m.after_rotate
    → Keeps expiry m.after_count
    → Keeps expiry m.after_create
    → ExpireTogether expiry rows
    → IsWithin expiry now (refresh_as now new_jti m payload user rows)
unfolding rotate
as-IsWithin expiry now new_jti m payload rows none after_rotate after_count after_create h = h
as-IsWithin expiry now new_jti m payload rows (some user) after_rotate after_count after_create h =
    elim (Bool-cases (user.token_version == payload.token_version)) [
      | inl e ↦ rw e (
          rotated-IsWithin expiry user now new_jti m payload.jti (find_by_id payload.jti rows) rows
            after_rotate after_count after_create
            (λ row f. All-find (λ r. r.expires_at ≡ expiry r.family_id) payload.jti rows h f) h)
      | inr e ↦ rw e h
    ]

-- A pair that refresh answers, by rotation or again, lasts more than no time and no longer than its family, and the rows of a family go on to expire together. What other requests write meanwhile must keep that too.
pub refresh-IsWithin :
    (expiry : ℕ → ℕ) (users : Users) (now new_jti : ℕ) (m : Meanwhile) (payload : RefreshPayload)
    (rows : Sessions)
    → Keeps expiry m.after_rotate
    → Keeps expiry m.after_count
    → Keeps expiry m.after_create
    → ExpireTogether expiry rows
    → IsWithin expiry now (refresh users now new_jti m (some payload) rows)
unfolding refresh
refresh-IsWithin expiry users now new_jti m payload rows after_rotate after_count after_create h =
    as-IsWithin expiry now new_jti m payload rows (users payload.user_id) after_rotate after_count
      after_create h
