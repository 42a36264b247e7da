-- ===== src/Codes/Redeemed.antt =====
-- Codes that are guessed and redeemed in src/app/services/PasswordResetService.ts.
use lag_money_manager.Prelude.{
  ℕ, suc, ◌+◌, ◌-◌, ◌*◌, ◌≤◌, Bool, true, false, ◌&&◌, ◌≡◌, refl, Option, none, some, List, [], ◌∷◌,
  ◌==◌, any, ap, length, ◌⊎◌, ltb, All, if◌then◌else◌, Bool-cases, inl, inr, arith, is_some, bit,
}
use lag_money_manager.Codes.{
  reset, AuthCodeRecord, Codes, find_first, write_first, is_for, tried, tried_option, may_try,
  count_attempt, emptied, has_live_code, redeem_code, code_max_attempts, by_code, redeem_counted,
  redeem,
}

-- The attempts that the rows of an address still take.
unfoldable pub tries_left : ℕ → Codes → ℕ
tries_left to_hash [] = 0
tries_left to_hash (row ∷ rows) =
    let rest = tries_left to_hash rows in
    if is_for reset to_hash row then (code_max_attempts - row.attempts) + rest else rest

-- How many rows an address has for a reset; the unique index allows one.
unfoldable pub rows_of : ℕ → Codes → ℕ
rows_of to_hash [] = 0
rows_of to_hash (row ∷ rows) =
    let rest = rows_of to_hash rows in if is_for reset to_hash row then suc rest else rest

-- A guess: a code, and when.
abbrev pub Guess : Type 0
Guess = ℕ × ℕ

-- What is stored once codes have been guessed for one address.
unfoldable pub guess_all : (ℕ → ℕ → ℕ) → ℕ → List Guess → Codes → Codes
guess_all code_digest to_hash [] rows = rows
guess_all code_digest to_hash (guess ∷ guesses) rows =
    guess_all code_digest to_hash guesses
      (redeem code_digest (by_code to_hash guess.0) guess.1 rows).1

emptied-tries_left :
    (to_hash : ℕ) (p : AuthCodeRecord → Bool) (rows : Codes)
    → tries_left to_hash (write_first p emptied rows) ≡ tries_left to_hash rows
unfolding tries_left write_first
emptied-tries_left to_hash p [] = refl
emptied-tries_left to_hash p (row ∷ rows) = elim (Bool-cases (p row)) [
  | inl e ↦ rw e
  | inr e ↦ rw (e, emptied-tries_left to_hash p rows)
]

-- An attempt that is counted is one less.
counted-tries_left :
    (to_hash : ℕ) (rows : Codes)
    → tries_left to_hash (write_first (may_try reset to_hash code_max_attempts) tried rows)
        + bit (is_some (tried_option (find_first (may_try reset to_hash code_max_attempts) rows)))
      ≡ tries_left to_hash rows
unfolding tries_left write_first find_first
counted-tries_left to_hash [] = refl
counted-tries_left to_hash (row ∷ rows) =
    let ih = counted-tries_left to_hash rows in
    elim (Bool-cases (is_for reset to_hash row)) [
      | inl e ↦ elim (Bool-cases (ltb row.attempts code_max_attempts)) [
        | inl f ↦ rw (e, f) (rw e (ground arith))
        | inr f ↦ rw (e, f) (rw e (omega (arith, ih)))
      ]
      | inr e ↦ rw e (rw e ih)
    ]

redeemed-tries_left :
    (code_digest : ℕ → ℕ → ℕ) (to_hash code now : ℕ) (found : Option AuthCodeRecord) (rows : Codes)
    → tries_left to_hash (redeem_counted (code_digest to_hash code) now (found, rows)).1
      ≡ tries_left to_hash rows
unfolding redeem_code
redeemed-tries_left code_digest to_hash code now none rows = refl
redeemed-tries_left code_digest to_hash code now (some row) rows =
    emptied-tries_left to_hash (has_live_code row.id (code_digest to_hash code) now) rows

-- An attempt finds a row as long as one is left.
found_unless_spent :
    (to_hash : ℕ) (rows : Codes)
    → (tries_left to_hash rows ≡ 0)
      ⊎ (is_some (tried_option (find_first (may_try reset to_hash code_max_attempts) rows)) ≡ true)
unfolding tries_left find_first
found_unless_spent to_hash [] = inl refl
found_unless_spent to_hash (row ∷ rows) =
    let ih = found_unless_spent to_hash rows in
    elim (Bool-cases (is_for reset to_hash row)) [
      | inl e ↦ elim (Bool-cases (ltb row.attempts code_max_attempts)) [
        | inl f ↦ rw (e, f) (inr refl)
        | inr f ↦ elim ih [ inl z ↦ inl (rw e (ground (arith, z))) | inr z ↦ rw (e, f) (inr z) ]
      ]
      | inr e ↦ rw e ih
    ]

spent_none :
    (to_hash : ℕ) (rows : Codes)
    → tries_left to_hash rows ≡ 0
    → find_first (may_try reset to_hash code_max_attempts) rows ≡ none
unfolding tries_left find_first
spent_none to_hash [] h = refl
spent_none to_hash (row ∷ rows) h = elim (Bool-cases (is_for reset to_hash row)) [
  | inl e ↦
      (let k : (code_max_attempts - row.attempts) + tries_left to_hash rows ≡ 0 = rw e at h in
        let f : ltb row.attempts code_max_attempts ≡ false = ground arith in
        rw (e, f) (spent_none to_hash rows (omega (arith, k))))
  | inr e ↦ rw e (spent_none to_hash rows (rw e at h))
]

spent_unwritten :
    (to_hash : ℕ) (rows : Codes)
    → tries_left to_hash rows ≡ 0
    → write_first (may_try reset to_hash code_max_attempts) tried rows ≡ rows
unfolding tries_left write_first
spent_unwritten to_hash [] h = refl
spent_unwritten to_hash (row ∷ rows) h = elim (Bool-cases (is_for reset to_hash row)) [
  | inl e ↦
      (let k : (code_max_attempts - row.attempts) + tries_left to_hash rows ≡ 0 = rw e at h in
        let f : ltb row.attempts code_max_attempts ≡ false = ground arith in
        rw (e, f) (ap (λ rest. row ∷ rest) (spent_unwritten to_hash rows (omega (arith, k)))))
  | inr e ↦ rw e (ap (λ rest. row ∷ rest) (spent_unwritten to_hash rows (rw e at h)))
]

-- A guess leaves one attempt less, or there was none.
guess-tries_left :
    (code_digest : ℕ → ℕ → ℕ) (to_hash : ℕ) (guess : Guess) (rows : Codes)
    → tries_left to_hash (redeem code_digest (by_code to_hash guess.0) guess.1 rows).1
      ≤ tries_left to_hash rows - 1
unfolding redeem count_attempt
guess-tries_left code_digest to_hash guess rows =
    let p = may_try reset to_hash code_max_attempts in
    let found = tried_option (find_first p rows) in
    let left = write_first p tried rows in
    let counted = counted-tries_left to_hash rows in
    let same = redeemed-tries_left code_digest to_hash guess.0 guess.1 found left in
    elim (found_unless_spent to_hash rows) [
      | inl z ↦ omega (arith, z, counted, same)
      | inr one ↦ (let b : bit (is_some found) ≡ 1 = ap bit one in omega (arith, b, counted, same))
    ]

guess_all-tries_left :
    (code_digest : ℕ → ℕ → ℕ) (to_hash : ℕ) (guesses : List Guess) (rows : Codes)
    → tries_left to_hash (guess_all code_digest to_hash guesses rows)
      ≤ tries_left to_hash rows - length guesses
unfolding guess_all
guess_all-tries_left code_digest to_hash [] rows = omega arith
guess_all-tries_left code_digest to_hash (guess ∷ guesses) rows =
    let after = (redeem code_digest (by_code to_hash guess.0) guess.1 rows).1 in
    omega (
      arith,
      guess-tries_left code_digest to_hash guess rows,
      guess_all-tries_left code_digest to_hash guesses after,
    )

one_row :
    (to_hash : ℕ) (rows : Codes)
    → tries_left to_hash rows ≤ code_max_attempts * rows_of to_hash rows
unfolding tries_left rows_of
one_row to_hash [] = omega arith
one_row to_hash (row ∷ rows) =
    let ih = one_row to_hash rows in
    elim (Bool-cases (is_for reset to_hash row)) [
      | inl e ↦ rw e (omega (arith, ih))
      | inr e ↦ rw e ih
    ]

-- Once five codes or more have been guessed for an address, with none asked for or sent between, every further code is refused, also the one that was sent, and nothing is written. The address has one row at most.
pub redeem-guess_all :
    (code_digest : ℕ → ℕ → ℕ) (to_hash : ℕ) (guesses : List Guess) (rows : Codes) (code now : ℕ)
    → rows_of to_hash rows ≤ 1
    → code_max_attempts ≤ length guesses
    → redeem code_digest (by_code to_hash code) now (guess_all code_digest to_hash guesses rows)
      ≡ (none, guess_all code_digest to_hash guesses rows)
unfolding redeem count_attempt
redeem-guess_all code_digest to_hash guesses rows code now one enough =
    let after = guess_all code_digest to_hash guesses rows in
    let used = guess_all-tries_left code_digest to_hash guesses rows in
    let at_most = one_row to_hash rows in
    let spent : tries_left to_hash after ≡ 0 = omega (arith, used, at_most) in
    rw (spent_none to_hash after spent, spent_unwritten to_hash after spent)

-- Each id is that of one row.
abbrev pub IsUnique : Codes → Type 0
IsUnique [] = Unit
IsUnique (row ∷ rows) = All (λ other. (other.id == row.id) ≡ false) rows × IsUnique rows

not_there :
    (id code_hash now : ℕ) (rows : Codes)
    → All (λ row. (row.id == id) ≡ false) rows
    → find_first (has_live_code id code_hash now) rows ≡ none
unfolding find_first
not_there id code_hash now [] a = refl
not_there id code_hash now (row ∷ rows) a = rw a.0 (not_there id code_hash now rows a.1)

same_ids :
    (id other : ℕ) (rows : Codes)
    → (other == id) ≡ true
    → All (λ row. (row.id == other) ≡ false) rows
    → All (λ row. (row.id == id) ≡ false) rows
same_ids id other [] e a = tt
same_ids id other (row ∷ rows) e a = (ground arith, same_ids id other rows e a.1)

-- A code of a row that is redeemed ends every code of the row: no code redeems the row again until one is sent. Ids are unique.
pub redeem_code-once :
    (id code_hash now other_hash later : ℕ) (rows : Codes) {row : AuthCodeRecord}
    → IsUnique rows
    → (redeem_code id code_hash now rows).0 ≡ some row
    → (redeem_code id other_hash later (redeem_code id code_hash now rows).1).0 ≡ none
unfolding redeem_code find_first write_first
redeem_code-once id code_hash now other_hash later [] u h = let f : ⊥ = cc in absurd f
redeem_code-once id code_hash now other_hash later (first ∷ rows) u h =
    elim (Bool-cases (first.id == id)) [
      | inl e ↦
          (let gone = same_ids id first.id rows e u.0 in
            elim (Bool-cases (
              any (λ code. (code.code_hash == code_hash) && ltb now code.expires_at) first.codes)) [
                | inl f ↦ rw (e, f) (rw e (not_there id other_hash later rows gone))
                | inr f ↦
                    (let k = rw (e, f) at h in
                      let none_there = not_there id code_hash now rows gone in
                      let g : ⊥ = cc in absurd g)
              ])
      | inr e ↦
          rw e (rw e (redeem_code-once id code_hash now other_hash later rows u.1 (rw e at h)))
    ]
