-- ===== src/Errors.antt =====
-- src/shared/errors.ts, src/shared/errorCodes.ts and src/domain/errors.ts: what a call throws. The
-- text of a message and the name of a field are left out: a client branches on the code.
use lag_money_manager.Prelude.{Bool, true, false, ℕ, ◌≡◌, refl, ◌↔◌}

-- The codes of `ErrorCode` that the modelled code raises; `no_code` is a throw that names none.
pub data ErrorCode : Type 0 where
  no_code bad_request_code not_found_code validation split_invalid participant_not_in_group :
      ErrorCode
  amount_precision future_date transaction_not_splittable : ErrorCode
  loan_overpaid currency_mismatch income_on_card_or_loan : ErrorCode
  category_archived category_type_mismatch settlement_movement_locked : ErrorCode
  resync_required invalid_cursor id_taken stale_update : ErrorCode
  invitation_unavailable invitation_to_self email_not_verified : ErrorCode
  resource_archived contact_has_no_email invitation_limit_reached : ErrorCode
  participant_already_in_group account_limit_reached : ErrorCode
  no_default_account idempotency_payload_mismatch idempotency_original_deleted : ErrorCode
  refresh_invalid refresh_revoked : ErrorCode
  account_field_not_for_type default_account_archive_blocked : ErrorCode

-- The names of `ApiError.errors`.
pub data Status : Type 0 where
  bad_request unauthorized forbidden not_found conflict : Status
  unprocessable_entity internal_server_error service_unavailable : Status

-- `ApiError.errors`, which gives each name its HTTP status.
pub status_code : Status → ℕ
status_code bad_request = 400
status_code unauthorized = 401
status_code forbidden = 403
status_code not_found = 404
status_code conflict = 409
status_code unprocessable_entity = 422
status_code internal_server_error = 500
status_code service_unavailable = 503

-- The unique index that refuses a second row: that of `_id`, or another.
pub data UniqueIndex : Type 0 where
  row_id another : UniqueIndex

-- What is thrown: an `ApiError`, a `DomainValidationError`, the duplicate key (11000) that the
-- database reports, or a plain `Error`.
pub data Error : Type 0 where
  api : Status → ErrorCode → Error
  duplicate_key : UniqueIndex → Error
  domain : ErrorCode → Error
  plain : Error

-- A call that returns, or throws.
pub data Result {ℓ} (T : Type ℓ) : Type ℓ where
  ok : T → Result T
  err : Error → Result T

-- What follows a call runs when the call returned; a throw is passed on.
abbrev pub then_do {ℓ κ} : {T : Type ℓ} {S : Type κ} → (T → Result S) → Result T → Result S
then_do next (ok value) = next value
then_do next (err thrown) = err thrown

infixl 5 ◌>>=◌ ◌>>◌
abbrev pub ◌>>=◌ {ℓ κ} : {T : Type ℓ} {S : Type κ} → Result T → (T → Result S) → Result S
call >>= next = then_do next call

abbrev pub ◌>>◌ {ℓ} : {S : Type ℓ} → Result (Unit {0}) → Result S → Result S
check >> next = then_do (λ _. next) check

-- `if (b) throw e;`
abbrev pub throw_if : Bool → Error → Result (Unit {0})
throw_if true e = err e
throw_if false e = ok tt

-- A sequence that returns has had its first call return.
pub >>=-eq-ok {ℓ κ} :
    {T : Type ℓ} {S : Type κ} (call : Result T) (next : T → Result S) {s : S}
    → (call >>= next) ≡ ok s
    → (value : T) × (call ≡ ok value) × (next value ≡ ok s)
>>=-eq-ok (err thrown) next h = cc
>>=-eq-ok (ok value) next h = (value, refl, h)

-- What follows a check that was passed.
pub >>-eq-ok {ℓ} :
    {S : Type ℓ} (check : Result (Unit {0})) (next : Result S) {s : S}
    → (check >> next) ≡ ok s
    → (check ≡ ok tt) × (next ≡ ok s)
>>-eq-ok (err thrown) next h = cc
>>-eq-ok (ok tt) next h = (refl, h)

-- A check that was passed.
pub passed {ℓ} :
    {A : Type ℓ} (b : Bool) (e : Error) (m : Result A) {a : A}
    → (throw_if b e >> m) ≡ ok a
    → (b ≡ false) × (m ≡ ok a)
passed true e m h = cc
passed false e m h = (refl, h)

-- What a successful result holds.
pub ok_inj {ℓ} : {A : Type ℓ} {a b : A} → ok a ≡ ok b → a ≡ b
ok_inj h = cc

-- Two checks are passed when each is.
pub both_passed : (a b : Result (Unit {0})) → ((a >> b) ≡ ok tt) ↔ ((a ≡ ok tt) × (b ≡ ok tt))
both_passed (ok tt) b = (λ h. (refl, h), λ h. h.1)
both_passed (err e) b = (λ h. cc, λ h. let f = h.0 in cc)
