-- ===== src/Sessions/Crossing.antt =====
-- A logout of src/app/services/AuthService.ts that crosses the refresh of a token of the same family.
use mathlib.Core.Path.{subst}
use lag_money_manager.Prelude.{
  ℕ, any, true, false, ◌≡◌, refl, ap, sym, ◌∙◌, Option, none, some, ◌∷◌, ◌==◌, ==_iff, leb,
  Bool-cases, inl, inr, arith,
}
use lag_money_manager.Errors.{err, Error}
use lag_money_manager.Sessions.{
  RefreshSession, Sessions, find_by_id, write_row, new_session, create, is_tip, rotate, has_jti,
  replaced, revoke_family,
}
use lag_money_manager.Sessions.Service.{
  AuthUser, Users, RefreshPayload, Meanwhile, revoked_error, invalid_error, remaining_seconds,
  refresh, confirm, create_next,
}
use lag_money_manager.Sessions.Families.{IsClosed, revoke_family-IsClosed}
use lag_money_manager.Sessions.Logout.{IsCurrent, quiet}
use lag_money_manager.Sessions.Ended.{
  IsEnded, family_found, logged_out, rotated-family_found, rotated-any, revoked-any,
  revoke_family-IsEnded, logged_out_eq, not_found, created-family_found,
}

abbrev rows_created : ℕ → ℕ → Meanwhile → AuthUser → RefreshSession → Sessions → Sessions
rows_created now new_jti m user tip rows =
    new_session new_jti user.id tip.family_id tip.expires_at
    ∷ m.after_rotate (write_row tip.jti (replaced new_jti now) rows)

confirm-IsEnded :
    (user : AuthUser) (now new_jti : ℕ) (m : Meanwhile) (session : RefreshSession)
    (seen : Option RefreshSession) (rows : Sessions)
    → IsEnded seen
    → confirm user now new_jti m session seen rows
      ≡ (err revoked_error, revoke_family session.family_id now rows)
confirm-IsEnded user now new_jti m session none rows ended = refl
confirm-IsEnded user now new_jti m session (some row) rows ended = rw ended

next-IsEnded :
    (user : AuthUser) (now new_jti : ℕ) (m : Meanwhile) (session : RefreshSession) (jti : ℕ)
    (rows : Sessions)
    → any (has_jti new_jti) rows ≡ false
    → IsEnded (
        find_by_id jti (
          m.after_create (new_session new_jti user.id session.family_id session.expires_at ∷ rows)))
    → (e : Error) × (rows' : Sessions) × (create_next user now new_jti m session jti rows
        ≡ (err e, rows'))
      × IsClosed session.family_id rows'
unfolding create
next-IsEnded user now new_jti m session jti rows fresh ended =
    let made = new_session new_jti user.id session.family_id session.expires_at ∷ rows in
    let seen = m.after_create made in
    elim (Bool-cases (leb (remaining_seconds session.expires_at now) 0)) [
      | inl l ↦ (
        invalid_error,
        revoke_family session.family_id now rows,
        rw l,
        revoke_family-IsClosed session.family_id now rows,
      )
      | inr l ↦ (
        revoked_error,
        revoke_family session.family_id now seen,
        rw (l, fresh) (confirm-IsEnded user now new_jti m session (find_by_id jti seen) seen ended),
        revoke_family-IsClosed session.family_id now seen,
      )
    ]

refresh_ended :
    (users : Users) (now new_jti : ℕ) (m : Meanwhile) (payload : RefreshPayload) (rows : Sessions)
    (tip : RefreshSession) (current : IsCurrent users payload)
    → find_by_id payload.jti rows ≡ some tip
    → is_tip tip ≡ true
    → any (has_jti new_jti) (m.after_rotate (write_row tip.jti (replaced new_jti now) rows)) ≡ false
    → IsEnded
        (find_by_id payload.jti (m.after_create (rows_created now new_jti m current.0 tip rows)))
    → (e : Error) × (rows' : Sessions) × (refresh users now new_jti m (some payload) rows
        ≡ (err e, rows'))
      × IsClosed tip.family_id rows'
unfolding refresh rotate
refresh_ended users now new_jti m payload rows tip current found live fresh ended =
    let version = (==_iff current.0.token_version payload.token_version).1 current.2 in
    let next =
      next-IsEnded current.0 now new_jti m (replaced new_jti now tip) payload.jti
        (m.after_rotate (write_row tip.jti (replaced new_jti now) rows)) fresh ended in
    (next.0, next.1, rw (current.1, version, found, live) next.2, next.3)

-- Where a logout lands in a refresh: after the rotation of the row, or after the next row is created.
pub data Moment : Type 0 where
  after_rotation after_creation : Moment

-- A logout with a token lands in a refresh, and nothing else is written meanwhile.
abbrev pub logging_out : Moment → ℕ → RefreshPayload → Meanwhile
logging_out after_rotation later token = record quiet { after_rotate = logged_out later token }
logging_out after_creation later token = record quiet { after_create = logged_out later token }

module _ (now later new_jti : ℕ) (payload other : RefreshPayload) (rows : Sessions)
    (tip : RefreshSession) (found : find_by_id payload.jti rows ≡ some tip)
    (same : family_found (find_by_id other.jti rows) ≡ some tip.family_id)
    (fresh : any (has_jti new_jti) rows ≡ false) (user : AuthUser) where
  abbrev rotated : Sessions
  rotated = write_row tip.jti (replaced new_jti now) rows

  abbrev next : RefreshSession
  next = new_session new_jti user.id tip.family_id tip.expires_at

  own_family : family_found (find_by_id payload.jti rotated) ≡ some tip.family_id
  own_family = rotated-family_found payload.jti tip.jti new_jti now rows ∙ ap family_found found

  other_family : family_found (find_by_id other.jti rotated) ≡ some tip.family_id
  other_family = rotated-family_found other.jti tip.jti new_jti now rows ∙ same

  landed-fresh :
      (moment : Moment)
      → any (has_jti new_jti) ((logging_out moment later other).after_rotate rotated) ≡ false
  landed-fresh after_rotation =
      ap (any (has_jti new_jti)) (logged_out_eq later tip.family_id other rotated other_family)
      ∙ revoked-any new_jti tip.family_id later rotated
      ∙ rotated-any new_jti tip.jti new_jti now rows
      ∙ fresh
  landed-fresh after_creation = rotated-any new_jti tip.jti new_jti now rows ∙ fresh

  not_taken : (new_jti == payload.jti) ≡ true → ⊥
  not_taken e =
      let one : new_jti ≡ payload.jti = ground arith in
      let gone = subst (λ j. find_by_id j rows ≡ none) one (not_found new_jti rows fresh) in
      let f : ⊥ = cc in f

  landed-IsEnded :
      (moment : Moment)
      → IsEnded (
          find_by_id payload.jti (
            (logging_out moment later other).after_create
              (rows_created now new_jti (logging_out moment later other) user tip rows)))
  unfolding find_by_id
  landed-IsEnded after_rotation =
      let ended =
        subst (λ rs. IsEnded (find_by_id payload.jti rs))
          (sym (logged_out_eq later tip.family_id other rotated other_family))
          (revoke_family-IsEnded payload.jti tip.family_id later rotated own_family) in
      elim (Bool-cases (new_jti == payload.jti)) [
        | inl e ↦ (let f = not_taken e in absurd f)
        | inr e ↦ rw e ended
      ]
  landed-IsEnded after_creation =
      subst (λ rs. IsEnded (find_by_id payload.jti rs))
        (sym (
          logged_out_eq later tip.family_id other (next ∷ rotated)
            (created-family_found other.jti next rotated other_family)))
        (revoke_family-IsEnded payload.jti tip.family_id later (next ∷ rotated)
          (created-family_found payload.jti next rotated own_family))

-- A logout with a token of the family that lands in the refresh of its live token, after the rotation or after the next row is created, wins: refresh throws, and no live row is left of the family, the new one included. The id of the new token is not taken.
pub refresh-logout :
    (users : Users) (now later new_jti : ℕ) (moment : Moment) (payload other : RefreshPayload)
    (rows : Sessions) (tip : RefreshSession)
    → IsCurrent users payload
    → find_by_id payload.jti rows ≡ some tip
    → is_tip tip ≡ true
    → family_found (find_by_id other.jti rows) ≡ some tip.family_id
    → any (has_jti new_jti) rows ≡ false
    → (e : Error) × (rows' : Sessions) × (refresh users now new_jti
          (logging_out moment later other)
          (some payload)
          rows
        ≡ (err e, rows'))
      × IsClosed tip.family_id rows'
refresh-logout users now later new_jti moment payload other rows tip current found live same fresh =
    refresh_ended users now new_jti (logging_out moment later other) payload rows tip current found
      live (landed-fresh now later new_jti payload other rows tip found same fresh current.0 moment)
      (landed-IsEnded now later new_jti payload other rows tip found same fresh current.0 moment)
