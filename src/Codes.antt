-- ===== src/Codes.antt =====
-- src/infrastructure/repositories/authCode/AuthCodeRepository.ts: the codes and links that are sent to an address, one row
-- for a purpose and the hash of an address, and their redemption in
-- src/app/services/PasswordResetService.ts. Ids, hashes and instants are numbers, since they are only compared;
-- the digests of codes and tokens are parameters.
pub mod Bounds
pub mod Redeemed
mod Tests
use lag_money_manager.Prelude.{
  ℕ, zero, suc, Bool, true, false, ◌&&◌, Option, none, some, List, [], ◌∷◌, ◌++◌, ◌==◌, any, ltb,
  max, if◌then◌else◌, filter,
}

-- `AUTH_CODE_PURPOSES`
pub data AuthCodePurpose : Type 0 where
  reset verify email_change sign_up : AuthCodePurpose

abbrev pub same_purpose : AuthCodePurpose → AuthCodePurpose → Bool
same_purpose reset reset = true
same_purpose verify verify = true
same_purpose email_change email_change = true
same_purpose sign_up sign_up = true
same_purpose _ _ = false

-- `IssuedCode`
pub record IssuedCode : Type 0 where
  pub code_hash : ℕ
  pub token_hash : ℕ
  pub expires_at : ℕ

-- `AuthCodeRecord`, with the instant when the database drops the row.
pub record AuthCodeRecord : Type 0 where
  pub id : ℕ
  pub purpose : AuthCodePurpose
  pub to_hash : ℕ
  pub user_id : Option ℕ
  pub codes : List IssuedCode
  pub attempts : ℕ
  pub issued_at : Option ℕ
  pub expires_at : ℕ

abbrev pub Codes : Type 0
Codes = List AuthCodeRecord

-- `findOne`
unfoldable pub find_first : (AuthCodeRecord → Bool) → Codes → Option AuthCodeRecord
find_first p [] = none
find_first p (row ∷ rows) = let rest = find_first p rows in if p row then some row else rest

-- A write of the first row that passes.
unfoldable pub write_first :
    (AuthCodeRecord → Bool) → (AuthCodeRecord → AuthCodeRecord) → Codes → Codes
write_first p change [] = []
write_first p change (row ∷ rows) =
    let rest = write_first p change rows in if p row then change row ∷ rows else row ∷ rest

abbrev pub is_for : AuthCodePurpose → ℕ → AuthCodeRecord → Bool
is_for purpose to_hash row = same_purpose row.purpose purpose && (row.to_hash == to_hash)

-- What `recordRequest` stores when there is no row, with the defaults of the schema.
abbrev pub requested : ℕ → AuthCodePurpose → ℕ → Option ℕ → ℕ → AuthCodeRecord
requested id purpose to_hash user_id expires_at = record {
  id = id;
  purpose = purpose;
  to_hash = to_hash;
  user_id = user_id;
  codes = [];
  attempts = 0;
  issued_at = none;
  expires_at = expires_at;
}

-- `recordRequest`
unfoldable pub record_request : ℕ → AuthCodePurpose → ℕ → Option ℕ → ℕ → Codes → Codes
record_request new_id purpose to_hash user_id expires_at rows =
    if any (is_for purpose to_hash) rows
    then write_first (is_for purpose to_hash)
        (λ row. record row { user_id = user_id; expires_at = expires_at; attempts = 0 }) rows
    else requested new_id purpose to_hash user_id expires_at ∷ rows

-- `$slice: [xs, -1]`
abbrev pub last_one : List IssuedCode → List IssuedCode
last_one [] = []
last_one (code ∷ []) = code ∷ []
last_one (code ∷ next ∷ codes) = last_one (next ∷ codes)

abbrev pub kept : Bool → ℕ → List IssuedCode → List IssuedCode
kept keep_live now codes =
    if keep_live then last_one (filter (λ code. ltb now code.expires_at) codes) else []

abbrev pub with_code : IssuedCode → Bool → ℕ → AuthCodeRecord → AuthCodeRecord
with_code code keep_live now row = record row {
  codes = kept keep_live now row.codes ++ (code ∷ []);
  attempts = 0;
  issued_at = some now;
  expires_at = max row.expires_at code.expires_at;
}

-- `issue`
unfoldable pub issue : AuthCodePurpose → ℕ → IssuedCode → Bool → ℕ → Codes → Codes
issue purpose to_hash code keep_live now rows =
    write_first (is_for purpose to_hash) (with_code code keep_live now) rows

abbrev pub tried : AuthCodeRecord → AuthCodeRecord
tried row = record row { attempts = suc row.attempts }

abbrev pub tried_option : Option AuthCodeRecord → Option AuthCodeRecord
tried_option none = none
tried_option (some row) = some (tried row)

abbrev pub may_try : AuthCodePurpose → ℕ → ℕ → AuthCodeRecord → Bool
may_try purpose to_hash max_attempts row =
    is_for purpose to_hash row && ltb row.attempts max_attempts

-- `countAttempt`
unfoldable pub count_attempt : AuthCodePurpose → ℕ → ℕ → Codes → Option AuthCodeRecord × Codes
count_attempt purpose to_hash max_attempts rows = (
  tried_option (find_first (may_try purpose to_hash max_attempts) rows),
  write_first (may_try purpose to_hash max_attempts) tried rows,
)

abbrev pub emptied : AuthCodeRecord → AuthCodeRecord
emptied row = record row { codes = [] }

abbrev pub has_live_code : ℕ → ℕ → ℕ → AuthCodeRecord → Bool
has_live_code id code_hash now row =
    (row.id == id)
    && any (λ code. (code.code_hash == code_hash) && ltb now code.expires_at) row.codes

-- `redeemCode`, which answers the row from before.
unfoldable pub redeem_code : ℕ → ℕ → ℕ → Codes → Option AuthCodeRecord × Codes
redeem_code id code_hash now rows = (
  find_first (has_live_code id code_hash now) rows,
  write_first (has_live_code id code_hash now) emptied rows,
)

abbrev pub has_live_token : AuthCodePurpose → ℕ → ℕ → AuthCodeRecord → Bool
has_live_token purpose token_hash now row =
    same_purpose row.purpose purpose
    && any (λ code. (code.token_hash == token_hash) && ltb now code.expires_at) row.codes

-- `redeemToken`
unfoldable pub redeem_token : AuthCodePurpose → ℕ → ℕ → Codes → Option AuthCodeRecord × Codes
redeem_token purpose token_hash now rows = (
  find_first (has_live_token purpose token_hash now) rows,
  write_first (has_live_token purpose token_hash now) emptied rows,
)

-- `discard`
unfoldable pub discard : AuthCodePurpose → ℕ → Codes → Codes
discard purpose to_hash rows = write_first (is_for purpose to_hash) emptied rows

-- `find`
abbrev pub find_row : AuthCodePurpose → ℕ → Codes → Option AuthCodeRecord
find_row purpose to_hash rows = find_first (is_for purpose to_hash) rows

-- `findByLiveToken`
abbrev pub find_by_live_token : AuthCodePurpose → ℕ → ℕ → Codes → Option AuthCodeRecord
find_by_live_token purpose token_hash now rows =
    find_first (has_live_token purpose token_hash now) rows

-- `CODE_MAX_ATTEMPTS`
abbrev pub code_max_attempts : ℕ
code_max_attempts = 5

-- `ResetProof`: the digest of a link, or the hash of an address and a code.
pub data ResetProof : Type 0 where
  by_token : ℕ → ResetProof
  by_code : (to_hash code : ℕ) → ResetProof

abbrev pub redeem_counted : ℕ → ℕ → Option AuthCodeRecord × Codes → Option AuthCodeRecord × Codes
redeem_counted code_hash now (none, rows) = (none, rows)
redeem_counted code_hash now (some row, rows) = redeem_code row.id code_hash now rows

-- `redeem` of the password reset.
unfoldable pub redeem : (ℕ → ℕ → ℕ) → ResetProof → ℕ → Codes → Option AuthCodeRecord × Codes
redeem code_digest (by_token token_hash) now rows = redeem_token reset token_hash now rows
redeem code_digest (by_code to_hash code) now rows =
    redeem_counted (code_digest to_hash code) now
      (count_attempt reset to_hash code_max_attempts rows)
