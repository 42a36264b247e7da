-- ===== src/Codes/Bounds.antt =====
-- How many codes a row of src/infrastructure/repositories/authCode/AuthCodeRepository.ts holds, and how many guesses it takes.
use lag_money_manager.Prelude.{
  ℕ, ◌≤◌, Bool, true, false, ◌≡◌, Option, List, [], ◌∷◌, any, ltb, length, All, Bool-cases, inl,
  inr, arith, length-append,
}
use lag_money_manager.Codes.{
  AuthCodePurpose, IssuedCode, AuthCodeRecord, Codes, write_first, is_for, record_request, last_one,
  kept, with_code, issue, tried, may_try, count_attempt, emptied, has_live_code, redeem_code,
  has_live_token, redeem_token, discard, code_max_attempts, filter,
}

-- A row holds two codes at most, and has counted no more attempts than a code may take.
abbrev pub IsBounded : AuthCodeRecord → Type 0
IsBounded row = (length row.codes ≤ 2) × (row.attempts ≤ code_max_attempts)

module _ (p : AuthCodeRecord → Bool) (change : AuthCodeRecord → AuthCodeRecord)
    (keeps : (row : AuthCodeRecord) → p row ≡ true → IsBounded row → IsBounded (change row)) where
  write_first-IsBounded :
      (rows : Codes) → All IsBounded rows → All IsBounded (write_first p change rows)
  unfolding write_first
  write_first-IsBounded [] a = tt
  write_first-IsBounded (row ∷ rows) a = elim (Bool-cases (p row)) [
    | inl e ↦ rw e (keeps row e a.0, a.1)
    | inr e ↦ rw e (a.0, write_first-IsBounded rows a.1)
  ]

length-last_one : (codes : List IssuedCode) → length (last_one codes) ≤ 1
length-last_one [] = omega arith
length-last_one (code ∷ []) = omega arith
length-last_one (code ∷ next ∷ codes) = length-last_one (next ∷ codes)

length-kept :
    (keep_live : Bool) (now : ℕ) (codes : List IssuedCode) → length (kept keep_live now codes) ≤ 1
length-kept true now codes = length-last_one (filter (λ code. ltb now code.expires_at) codes)
length-kept false now codes = omega arith

-- A write of the collection; the services pass `code_max_attempts` as the limit.
pub data Step : Codes → Codes → Type 0 where
  records :
      (new_id : ℕ) (purpose : AuthCodePurpose) (to_hash : ℕ) (user_id : Option ℕ) (expires_at : ℕ)
      (rows : Codes)
      → Step rows (record_request new_id purpose to_hash user_id expires_at rows)
  issues :
      (purpose : AuthCodePurpose) (to_hash : ℕ) (code : IssuedCode) (keep_live : Bool) (now : ℕ)
      (rows : Codes)
      → Step rows (issue purpose to_hash code keep_live now rows)
  counts :
      (purpose : AuthCodePurpose) (to_hash : ℕ) (rows : Codes)
      → Step rows (count_attempt purpose to_hash code_max_attempts rows).1
  redeems_code :
      (id code_hash now : ℕ) (rows : Codes) → Step rows (redeem_code id code_hash now rows).1
  redeems_token :
      (purpose : AuthCodePurpose) (token_hash now : ℕ) (rows : Codes)
      → Step rows (redeem_token purpose token_hash now rows).1
  discards :
      (purpose : AuthCodePurpose) (to_hash : ℕ) (rows : Codes)
      → Step rows (discard purpose to_hash rows)

-- Every write leaves at most two codes on a row and at most five attempts counted, if it was so before.
pub IsBounded-Step :
    (rows after : Codes) → Step rows after → All IsBounded rows → All IsBounded after
unfolding record_request issue count_attempt redeem_code redeem_token discard
IsBounded-Step rows after (records new_id purpose to_hash user_id expires_at _) a =
    elim (Bool-cases (any (is_for purpose to_hash) rows)) [
      | inl e ↦ rw e (
          write_first-IsBounded (is_for purpose to_hash)
            (λ row. record row { user_id = user_id; expires_at = expires_at; attempts = 0 })
            (λ row q b. (b.0, omega arith)) rows a)
      | inr e ↦ rw e ((omega arith, omega arith), a)
    ]
IsBounded-Step rows after (issues purpose to_hash code keep_live now _) a =
    write_first-IsBounded (is_for purpose to_hash) (with_code code keep_live now)
      (λ row q b.
        let l = length-append (kept keep_live now row.codes) (code ∷ []) in
        let k = length-kept keep_live now row.codes in (omega (arith, l, k), omega arith))
      rows a
IsBounded-Step rows after (counts purpose to_hash _) a =
    write_first-IsBounded (may_try purpose to_hash code_max_attempts) tried
      (λ row q b. (b.0, ground arith)) rows a
IsBounded-Step rows after (redeems_code id code_hash now _) a =
    write_first-IsBounded (has_live_code id code_hash now) emptied (λ row q b. (omega arith, b.1))
      rows a
IsBounded-Step rows after (redeems_token purpose token_hash now _) a =
    write_first-IsBounded (has_live_token purpose token_hash now) emptied
      (λ row q b. (omega arith, b.1)) rows a
IsBounded-Step rows after (discards purpose to_hash _) a =
    write_first-IsBounded (is_for purpose to_hash) emptied (λ row q b. (omega arith, b.1)) rows a
