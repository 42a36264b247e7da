-- ===== src/Sessions/Tip.antt =====
-- The tips of the families of src/infrastructure/repositories/refreshSession/RefreshSessionRepository.ts, while
-- requests of src/app/services/AuthService.ts run side by side. A refresh has rotated a row before it
-- creates the next: what it is about to create is `pending`.
use mathlib.Core.Path.{subst}
use lag_money_manager.Prelude.{
  ℕ, ◌+◌, ◌≤◌, true, false, ◌&&◌, ◌≡◌, refl, ap, sym, Option, none, some, ◌∷◌, ◌++◌, ◌==◌, is_none,
  Bool-cases, inl, inr, arith, any, bit,
}
use lag_money_manager.Errors.{ok}
use lag_money_manager.Sessions.{
  RefreshSession, Sessions, has_jti, find_by_id, write_row, new_session, create, update_found,
  is_tip, replaced, rotate, count_reissue, is_live_in, revoke_family, is_live_of,
  revoke_all_for_user, is_owned, revoke_family_for_user,
}
use lag_money_manager.Sessions.Families.{find-jti}
use lag_money_manager.Sessions.Tips.{
  tips, write_all-tips, found_counted, replaced-tips, new_row, pending-tips, no_tips,
}

-- The stored rows, and those that requests are about to create.
pub record Site : Type 0 where
  pub rows : Sessions
  pub pending : Sessions

pub data Step : Site → Site → Type 0 where
  rotates :
      (jti next now user : ℕ) {rows rows' pending : Sessions} {row : RefreshSession}
      → rotate jti next now rows ≡ (some row, rows')
      → Step
          (record { rows = rows; pending = pending })
          (record {
            rows = rows';
            pending = new_session next user row.family_id row.expires_at ∷ pending;
          })
  creates :
      (row : RefreshSession) (before after : Sessions) {rows rows' : Sessions}
      → create row rows ≡ ok rows'
      → Step
          (record { rows = rows; pending = before ++ (row ∷ after) })
          (record { rows = rows'; pending = before ++ after })
  gives_up :
      (row : RefreshSession) (before after : Sessions) {rows : Sessions}
      → Step
          (record { rows = rows; pending = before ++ (row ∷ after) })
          (record { rows = rows; pending = before ++ after })
  logs_in :
      (jti user expires : ℕ) {rows rows' pending : Sessions}
      → create (new_session jti user jti expires) rows ≡ ok rows'
      → any (λ row. row.family_id == jti) rows ≡ false
      → any (λ row. row.family_id == jti) pending ≡ false
      → Step
          (record { rows = rows; pending = pending })
          (record { rows = rows'; pending = pending })
  counts :
      (jti now : ℕ) {rows pending : Sessions}
      → Step
          (record { rows = rows; pending = pending })
          (record { rows = (count_reissue jti now rows).1; pending = pending })
  ends_family :
      (family now : ℕ) {rows pending : Sessions}
      → Step
          (record { rows = rows; pending = pending })
          (record { rows = revoke_family family now rows; pending = pending })
  ends_all :
      (user now : ℕ) {rows pending : Sessions}
      → Step
          (record { rows = rows; pending = pending })
          (record { rows = revoke_all_for_user user now rows; pending = pending })
  ends_own :
      (user family now : ℕ) {rows pending : Sessions}
      → Step
          (record { rows = rows; pending = pending })
          (record { rows = (revoke_family_for_user user family now rows).1; pending = pending })

-- A family has at most one tip, stored or about to be.
abbrev pub OneTip : Site → Type 0
OneTip site = (family : ℕ) → tips family site.rows + tips family site.pending ≤ 1

some_family :
    (next now : ℕ) (old : RefreshSession) {row : RefreshSession}
    → some (replaced next now old) ≡ some row
    → old.family_id ≡ row.family_id
some_family next now old h = cc

-- What a rotation and a create that succeeded did.
rotated_found :
    (next now : ℕ) (found : Option RefreshSession) (rows : Sessions) {row : RefreshSession}
    {rows' : Sessions}
    → update_found is_tip (replaced next now) found rows ≡ (some row, rows')
    → (old : RefreshSession) × (found ≡ some old)
      × (is_tip old ≡ true)
      × (old.family_id ≡ row.family_id)
      × (write_row old.jti (replaced next now) rows ≡ rows')
rotated_found next now none rows h = let k = ap (λ z. z.0) h in let f : ⊥ = cc in absurd f
rotated_found next now (some old) rows {row} {rows'} h = elim (Bool-cases (is_tip old)) [
  | inl e ↦
      (let k = rw e at h in
        let same : some (replaced next now old) ≡ some row = ap (λ z. z.0) k in
        let left : write_row old.jti (replaced next now) rows ≡ rows' = ap (λ z. z.1) k in
        (old, refl, e, some_family next now old same, left))
  | inr e ↦ (let k = ap (λ z. z.0) (rw e at h) in let f : ⊥ = cc in absurd f)
]

created_rows :
    (row : RefreshSession) (rows : Sessions) {rows' : Sessions}
    → create row rows ≡ ok rows'
    → row ∷ rows ≡ rows'
unfolding create
created_rows row rows h = elim (Bool-cases (any (has_jti row.jti) rows)) [
  | inl e ↦ (let k = rw e at h in cc)
  | inr e ↦ (let k = rw e at h in cc)
]

rotates-OneTip :
    (jti next now user : ℕ) (rows pending : Sessions) {row : RefreshSession} {rows' : Sessions}
    → rotate jti next now rows ≡ (some row, rows')
    → OneTip (record { rows = rows; pending = pending })
    → OneTip (record {
      rows = rows';
      pending = new_session next user row.family_id row.expires_at ∷ pending;
    })
unfolding rotate tips
rotates-OneTip jti next now user rows pending {row} {rows'} h one family =
    let did = rotated_found next now (find_by_id jti rows) rows h in
    let own = subst (λ j. find_by_id j rows ≡ some did.0) (sym (find-jti jti rows did.1)) did.1 in
    let less = replaced-tips family did.0.jti next now rows own did.2 in
    let fam = ap (λ f. bit (f == family)) did.3 in
    let left = ap (tips family) did.4 in
    let new = new_row family next user row.family_id row.expires_at in
    let was = one family in omega (arith, less, fam, left, new, was)

logs_in-OneTip :
    (jti user expires : ℕ) (rows pending : Sessions)
    → any (λ row. row.family_id == jti) rows ≡ false
    → any (λ row. row.family_id == jti) pending ≡ false
    → OneTip (record { rows = rows; pending = pending })
    → OneTip (record { rows = new_session jti user jti expires ∷ rows; pending = pending })
unfolding tips
logs_in-OneTip jti user expires rows pending fresh fresh' one family =
    let new = new_row family jti user jti expires in
    let was = one family in
    elim (Bool-cases (jti == family)) [
      | inl e ↦
          (let stored = no_tips family jti rows fresh e in
            let coming = no_tips family jti pending fresh' e in
            let bit_one = ap bit e in omega (arith, new, stored, coming, bit_one))
      | inr e ↦ (let bit_zero = ap bit e in omega (arith, new, was, bit_zero))
    ]

-- Whatever requests run side by side, a family keeps at most one tip, stored or about to be created: two refreshes of one token cannot both leave a live successor. A login opens a family that no row has.
pub OneTip-Step : (s t : Site) → Step s t → OneTip s → OneTip t
unfolding count_reissue revoke_family revoke_all_for_user revoke_family_for_user tips
OneTip-Step s t (rotates jti next now user {rows} {rows'} {pending} h) one =
    rotates-OneTip jti next now user rows pending h one
OneTip-Step s t (creates row before after {rows} h) one =
    subst (λ rs. OneTip (record { rows = rs; pending = before ++ after })) (created_rows row rows h)
      (λ family.
        let moved = pending-tips family row before after in
        let was = one family in omega (arith, moved, was))
OneTip-Step s t (gives_up row before after) one = λ family.
    let moved = pending-tips family row before after in
    let was = one family in omega (arith, moved, was)
OneTip-Step s t (logs_in jti user expires {rows} {rows'} {pending} h fresh fresh') one =
    subst (λ rs. OneTip (record { rows = rs; pending = pending }))
      (created_rows (new_session jti user jti expires) rows h)
      (logs_in-OneTip jti user expires rows pending fresh fresh' one)
OneTip-Step s t (counts jti now {rows}) one = λ family.
    let less = found_counted family now (find_by_id jti rows) rows in
    let was = one family in omega (arith, less, was)
OneTip-Step s t (ends_family f now {rows}) one = λ family.
    let less = write_all-tips family (is_live_in f) now rows in
    let was = one family in omega (arith, less, was)
OneTip-Step s t (ends_all user now {rows}) one = λ family.
    let less = write_all-tips family (is_live_of user) now rows in
    let was = one family in omega (arith, less, was)
OneTip-Step s t (ends_own user f now {rows}) one = λ family.
    let was = one family in
    let less =
      write_all-tips family (λ row. is_owned user f row && is_none row.revoked_at) now rows in
    elim (Bool-cases (any (is_owned user f) rows)) [
      | inl e ↦ rw e (omega (arith, less, was))
      | inr e ↦ rw e was
    ]
