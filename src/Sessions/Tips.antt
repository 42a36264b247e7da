-- ===== src/Sessions/Tips.antt =====
-- The tips of a family of refresh tokens: rows that were neither replaced nor revoked, and what each write of
-- src/infrastructure/repositories/refreshSession/RefreshSessionRepository.ts makes of their number.
use mathlib.Core.Path.{subst}
use lag_money_manager.Prelude.{
  ℕ, ◌+◌, ◌≤◌, Bool, true, false, ◌&&◌, ◌≡◌, refl, ap, sym, Option, none, some, [], ◌∷◌, ◌++◌, ◌==◌,
  Bool-cases, inl, inr, arith, any, bit,
}
use lag_money_manager.Sessions.{
  RefreshSession, Sessions, has_jti, find_by_id, write_row, write_all, new_session, update_found,
  is_tip, replaced, is_replaced, counted, revoked,
}

abbrev pub is_tip_of : ℕ → RefreshSession → Bool
is_tip_of family row = (row.family_id == family) && is_tip row

-- The rows of a family that were neither replaced nor revoked.
unfoldable pub tips : ℕ → Sessions → ℕ
tips family [] = 0
tips family (row ∷ rows) = bit (is_tip_of family row) + tips family rows

module _ (family : ℕ) where
  pub write_all-tips :
      (p : RefreshSession → Bool) (now : ℕ) (rows : Sessions)
      → tips family (write_all p (revoked now) rows) ≤ tips family rows
  unfolding write_all tips
  write_all-tips p now [] = omega arith
  write_all-tips p now (row ∷ rows) =
      let less : bit (is_tip_of family (revoked now row)) ≤ bit (is_tip_of family row) =
        ground arith in
      elim (Bool-cases (p row)) [
        | inl e ↦ rw e (omega (arith, less, write_all-tips p now rows))
        | inr e ↦ rw e (omega (arith, write_all-tips p now rows))
      ]

  pub counted-tips :
      (jti now : ℕ) (rows : Sessions)
      → tips family (write_row jti (counted now) rows) ≤ tips family rows
  unfolding write_row tips
  counted-tips jti now [] = omega arith
  counted-tips jti now (row ∷ rows) = elim (Bool-cases (has_jti jti row)) [
    | inl e ↦ rw e (omega arith)
    | inr e ↦ rw e (omega (arith, counted-tips jti now rows))
  ]

  pub found_counted :
      (now : ℕ) (found : Option RefreshSession) (rows : Sessions)
      → tips family (update_found is_replaced (counted now) found rows).1 ≤ tips family rows
  found_counted now none rows = omega arith
  found_counted now (some row) rows = elim (Bool-cases (is_replaced row)) [
    | inl e ↦ rw e (counted-tips row.jti now rows)
    | inr e ↦ rw e (omega arith)
  ]

  -- A tip that is replaced is one less.
  pub replaced-tips :
      (jti next now : ℕ) (rows : Sessions) {row : RefreshSession}
      → find_by_id jti rows ≡ some row
      → is_tip row ≡ true
      → tips family (write_row jti (replaced next now) rows) + bit (row.family_id == family)
        ≡ tips family rows
  unfolding write_row tips find_by_id
  replaced-tips jti next now [] h t = let f : ⊥ = cc in absurd f
  replaced-tips jti next now (first ∷ rows) {row} h t = elim (Bool-cases (has_jti jti first)) [
    | inl e ↦
        (let k = rw e at h in
          let same : first ≡ row = cc in
          let was = subst (λ r. is_tip r ≡ true) (sym same) t in
          let one : bit (is_tip_of family first) ≡ bit (first.family_id == family) = ground arith in
          let gone : bit (is_tip_of family (replaced next now first)) ≡ 0 = ground arith in
          let fam = ap (λ r. bit (r.family_id == family)) same in
          rw e (omega (arith, one, gone, fam)))
    | inr e ↦ (let ih = replaced-tips jti next now rows (rw e at h) t in rw e (omega (arith, ih)))
  ]

  pub new_row :
      (jti user f expires : ℕ)
      → bit (is_tip_of family (new_session jti user f expires)) ≡ bit (f == family)
  new_row jti user f expires = ground arith

  pub pending-tips :
      (row : RefreshSession) (before after : Sessions)
      → tips family (before ++ (row ∷ after))
        ≡ bit (is_tip_of family row) + tips family (before ++ after)
  unfolding tips
  pending-tips row [] after = refl
  pending-tips row (first ∷ before) after =
      let ih = pending-tips row before after in omega (arith, ih)

  pub no_tips :
      (f : ℕ) (rows : Sessions)
      → any (λ row. row.family_id == f) rows ≡ false
      → (f == family) ≡ true
      → tips family rows ≡ 0
  unfolding tips
  no_tips f [] h e = refl
  no_tips f (row ∷ rows) h e =
      let here : bit (is_tip_of family row) ≡ 0 = ground arith in
      let ih = no_tips f rows (ground arith) e in omega (arith, here, ih)
