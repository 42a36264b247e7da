-- ===== src/Sessions/Ended.antt =====
-- Rows of a family that a logout of src/app/services/AuthService.ts ends, as they are found again.
use lag_money_manager.Prelude.{
  ℕ, any, true, false, ◌||◌, ◌≡◌, refl, ap, Option, none, some, [], ◌∷◌, is_some, Bool-cases, inl,
  inr, arith,
}
use lag_money_manager.Sessions.{
  RefreshSession, Sessions, find_by_id, write_row, write_all, has_jti, replaced, is_live_in,
  revoke_family,
}
use lag_money_manager.Sessions.Service.{RefreshPayload, logout, end_family}

-- The parent row when it is read again: gone, or revoked.
abbrev pub IsEnded : Option RefreshSession → Type 0
IsEnded none = Unit
IsEnded (some row) = is_some row.revoked_at ≡ true

-- The family of a row that was looked for.
abbrev pub family_found : Option RefreshSession → Option ℕ
family_found none = none
family_found (some row) = some row.family_id

-- What a logout with a token leaves.
abbrev pub logged_out : ℕ → RefreshPayload → Sessions → Sessions
logged_out later token rows = (logout later (some token) rows).1

-- A rotation keeps the family of every row.
pub rotated-family_found :
    (id jti next now : ℕ) (rows : Sessions)
    → family_found (find_by_id id (write_row jti (replaced next now) rows))
      ≡ family_found (find_by_id id rows)
unfolding find_by_id write_row
rotated-family_found id jti next now [] = refl
rotated-family_found id jti next now (row ∷ rows) = elim (Bool-cases (has_jti jti row)) [
  | inl e ↦ elim (Bool-cases (has_jti id row)) [ inl f ↦ rw (e, f) | inr f ↦ rw (e, f) ]
  | inr e ↦ elim (Bool-cases (has_jti id row)) [
    | inl f ↦ rw (e, f)
    | inr f ↦ rw (e, f) (rotated-family_found id jti next now rows)
  ]
]

pub rotated-any :
    (id jti next now : ℕ) (rows : Sessions)
    → any (has_jti id) (write_row jti (replaced next now) rows) ≡ any (has_jti id) rows
unfolding write_row
rotated-any id jti next now [] = refl
rotated-any id jti next now (row ∷ rows) = elim (Bool-cases (has_jti jti row)) [
  | inl e ↦ rw e
  | inr e ↦ rw e (ap (λ b. has_jti id row || b) (rotated-any id jti next now rows))
]

pub revoked-any :
    (id family now : ℕ) (rows : Sessions)
    → any (has_jti id) (revoke_family family now rows) ≡ any (has_jti id) rows
unfolding revoke_family write_all
revoked-any id family now [] = refl
revoked-any id family now (row ∷ rows) =
    let ih = ap (λ b. has_jti id row || b) (revoked-any id family now rows) in
    elim (Bool-cases (is_live_in family row)) [ inl e ↦ rw e ih | inr e ↦ rw e ih ]

-- A row of a family that is ended is revoked.
pub revoke_family-IsEnded :
    (id family now : ℕ) (rows : Sessions)
    → family_found (find_by_id id rows) ≡ some family
    → IsEnded (find_by_id id (revoke_family family now rows))
unfolding find_by_id revoke_family write_all
revoke_family-IsEnded id family now [] h = tt
revoke_family-IsEnded id family now (row ∷ rows) h = elim (Bool-cases (has_jti id row)) [
  | inl f ↦ elim (Bool-cases (is_live_in family row)) [
    | inl e ↦ rw (e, f) refl
    | inr e ↦
        (let k : some row.family_id ≡ some family = rw f at h in
          let same : row.family_id ≡ family = cc in
          let there : is_some row.revoked_at ≡ true = ground arith in rw (e, f) there)
  ]
  | inr f ↦
      (let ih = revoke_family-IsEnded id family now rows (rw f at h) in
        elim (Bool-cases (is_live_in family row)) [ inl e ↦ rw (e, f) ih | inr e ↦ rw (e, f) ih ])
]

pub logged_out_eq :
    (later family : ℕ) (token : RefreshPayload) (rows : Sessions)
    → family_found (find_by_id token.jti rows) ≡ some family
    → logged_out later token rows ≡ revoke_family family later rows
unfolding logout
logged_out_eq later family token rows h = end_found (find_by_id token.jti rows) h
  where
    end_found :
        (found : Option RefreshSession)
        → family_found found ≡ some family
        → end_family later found rows ≡ revoke_family family later rows
    end_found none k = let f : ⊥ = cc in absurd f
    end_found (some row) k =
        let same : row.family_id ≡ family = cc in ap (λ g. revoke_family g later rows) same

pub not_found :
    (id : ℕ) (rows : Sessions) → any (has_jti id) rows ≡ false → find_by_id id rows ≡ none
unfolding find_by_id
not_found id [] h = refl
not_found id (row ∷ rows) h =
    let k : (has_jti id row ≡ false) × (any (has_jti id) rows ≡ false) = ground arith in
    rw k.0 (not_found id rows k.1)

pub created-family_found :
    (id : ℕ) (row : RefreshSession) (rows : Sessions)
    → family_found (find_by_id id rows) ≡ some row.family_id
    → family_found (find_by_id id (row ∷ rows)) ≡ some row.family_id
unfolding find_by_id
created-family_found id row rows h = elim (Bool-cases (has_jti id row)) [
  | inl e ↦ rw e
  | inr e ↦ rw e h
]
