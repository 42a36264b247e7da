-- ===== src/Sessions/Families.antt =====
-- The rows of src/infrastructure/repositories/refreshSession/RefreshSessionRepository.ts: what a write keeps of
-- them, and families without a live row.
use lag_money_manager.Prelude.{
  ℕ, Bool, true, false, ◌≡◌, ap, sym, some, [], ◌∷◌, ◌==◌, ==_iff, All, Bool-cases, inl, inr, arith,
}
use mathlib.Core.Path.{subst}
use lag_money_manager.Sessions.{
  RefreshSession, Sessions, has_jti, find_by_id, write_row, write_all, revoked, is_live_in,
  revoke_family,
}

module _ (P : RefreshSession → Type 0) where
  pub All-write_row :
      (jti : ℕ) (change : RefreshSession → RefreshSession)
      → ((row : RefreshSession) → P row → P (change row))
      → (rows : Sessions) → All P rows
      → All P (write_row jti change rows)
  unfolding write_row
  All-write_row jti change keeps [] a = tt
  All-write_row jti change keeps (row ∷ rows) a = elim (Bool-cases (has_jti jti row)) [
    | inl e ↦ rw e (keeps row a.0, a.1)
    | inr e ↦ rw e (a.0, All-write_row jti change keeps rows a.1)
  ]

  pub All-write_all :
      (p : RefreshSession → Bool) (change : RefreshSession → RefreshSession)
      → ((row : RefreshSession) → P row → P (change row))
      → (rows : Sessions) → All P rows
      → All P (write_all p change rows)
  unfolding write_all
  All-write_all p change keeps [] a = tt
  All-write_all p change keeps (row ∷ rows) a = elim (Bool-cases (p row)) [
    | inl e ↦ rw e (keeps row a.0, All-write_all p change keeps rows a.1)
    | inr e ↦ rw e (a.0, All-write_all p change keeps rows a.1)
  ]

  pub All-find :
      (jti : ℕ) (rows : Sessions) {row : RefreshSession}
      → All P rows
      → find_by_id jti rows ≡ some row
      → P row
  unfolding find_by_id
  All-find jti [] a h = let f : ⊥ = cc in absurd f
  All-find jti (first ∷ rows) {row} a h = elim (Bool-cases (has_jti jti first)) [
    | inl e ↦ (let k = rw e at h in let same : first ≡ row = cc in subst P same a.0)
    | inr e ↦ All-find jti rows a.1 (rw e at h)
  ]

pub find-jti :
    (jti : ℕ) (rows : Sessions) {row : RefreshSession}
    → find_by_id jti rows ≡ some row
    → row.jti ≡ jti
unfolding find_by_id
find-jti jti [] h = cc
find-jti jti (first ∷ rows) h = elim (Bool-cases (has_jti jti first)) [
  | inl e ↦ (let k = rw e at h in let j = (==_iff first.jti jti).0 e in cc)
  | inr e ↦ find-jti jti rows (rw e at h)
]

-- A write of the row of an id is what the next read of it finds.
pub find-write_row :
    (jti : ℕ) (change : RefreshSession → RefreshSession) (rows : Sessions) {row : RefreshSession}
    → ((row : RefreshSession) → (change row).jti ≡ row.jti)
    → find_by_id jti rows ≡ some row
    → find_by_id jti (write_row jti change rows) ≡ some (change row)
unfolding find_by_id write_row
find-write_row jti change [] keeps h = let f : ⊥ = cc in absurd f
find-write_row jti change (first ∷ rows) {row} keeps h = elim (Bool-cases (has_jti jti first)) [
  | inl e ↦
      (let k = rw e at h in
        let same : first ≡ row = cc in
        let still = subst (λ j. (j == jti) ≡ true) (sym (keeps first)) e in
        rw (e, still) (ap (λ r. some (change r)) same))
  | inr e ↦ rw (e, e) (find-write_row jti change rows keeps (rw e at h))
]

-- Nothing that is live is left of a family.
abbrev pub IsClosed : ℕ → Sessions → Type 0
IsClosed family rows = All (λ row. is_live_in family row ≡ false) rows

not_live_revoked :
    (family now : ℕ) (row : RefreshSession) → is_live_in family (revoked now row) ≡ false
not_live_revoked family now row = ground arith

pub revoke_family-IsClosed :
    (family now : ℕ) (rows : Sessions) → IsClosed family (revoke_family family now rows)
unfolding revoke_family write_all
revoke_family-IsClosed family now [] = tt
revoke_family-IsClosed family now (row ∷ rows) = elim (Bool-cases (is_live_in family row)) [
  | inl e ↦ rw e (not_live_revoked family now row, revoke_family-IsClosed family now rows)
  | inr e ↦ rw e (e, revoke_family-IsClosed family now rows)
]
