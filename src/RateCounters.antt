-- ===== src/RateCounters.antt =====
-- src/infrastructure/repositories/rateCounter/RateCounterRepository.ts and src/app/middlewares/authRateLimitMiddleware.ts:
-- a counter for a key that starts again when its window has ended. A key is a number; the instant of a hit
-- is that of the database.
pub mod Limit
mod Tests
use lag_money_manager.Prelude.{
  ℕ, suc, ◌+◌, ◌-◌, Bool, true, false, not, ◌&&◌, Option, none, some, List, [], ◌∷◌, ◌==◌, ltb, leb,
  if◌then◌else◌,
}

-- `RateCount`, the document of a key.
pub record RateCount : Type 0 where
  pub count : ℕ
  pub expires_at : ℕ

-- `CounterWindow`
pub data CounterWindow : Type 0 where
  length_ms ends_at : ℕ → CounterWindow

abbrev pub Counters : Type 0
Counters = ℕ → Option RateCount

abbrev pub next_expiry : CounterWindow → ℕ → ℕ
next_expiry (length_ms length) now = now + length
next_expiry (ends_at instant) now = instant

-- The pipeline of `hit`: on an insert there is no expiry, which sorts below every instant.
abbrev pub hit_found : CounterWindow → ℕ → Option RateCount → RateCount
hit_found window now none = record { count = 1; expires_at = next_expiry window now }
hit_found window now (some found) =
    if leb found.expires_at now
    then record { count = 1; expires_at = next_expiry window now }
    else record { count = suc found.count; expires_at = found.expires_at }

abbrev pub put : ℕ → RateCount → Counters → Counters
put key value counters k = if k == key then some value else counters k

-- `hit`
unfoldable pub hit : ℕ → CounterWindow → ℕ → Counters → RateCount × Counters
hit key window now counters =
    let value = hit_found window now (counters key) in (value, put key value counters)

abbrev pub refunded : Option RateCount → Option RateCount
refunded none = none
refunded (some found) = some (record found { count = found.count - 1 })

-- `refund`, which does not go below 0.
unfoldable pub refund : ℕ → Counters → Counters
refund key counters k = if k == key then refunded (counters k) else counters k

-- What becomes of the call that counts a request: the database answers, or the call throws, before the
-- write or after it.
pub data StoreReply : Type 0 where
  replies fails fails_late : StoreReply

-- What befalls a request: `answered_well` is whether it is answered by `res.json` with a status below
-- 400, if it passes, and `refund_fails` whether the refund throws, which is swallowed.
pub record Passage : Type 0 where
  pub store : StoreReply
  pub answered_well : Bool
  pub refund_fails : Bool

abbrev pub is_refunded : Bool → Passage → Bool
is_refunded refund_on_success passage =
    refund_on_success && passage.answered_well && not passage.refund_fails

-- What a limiter answers once the request is counted, and what it leaves. A refusal is a 429, which
-- is not refunded.
abbrev pub settled : ℕ → ℕ → Bool → RateCount × Counters → Bool × Counters
settled key max refunded_later (value, counters) =
    let left = if refunded_later then refund key counters else counters in
    if ltb max value.count then (false, counters) else (true, left)

-- A store that fails lets the request pass, and nothing is refunded.
abbrev pub limited :
    ℕ → ℕ → Bool → Passage → StoreReply → Counters → RateCount × Counters → Bool × Counters
limited key max refund_on_success passage replies before hits =
    settled key max (is_refunded refund_on_success passage) hits
limited key max refund_on_success passage fails before hits = (true, before)
limited key max refund_on_success passage fails_late before hits = (true, hits.1)

-- `authRateLimit`, for the key of a request, none where `keyFrom` says to skip it.
unfoldable pub auth_rate_limit : ℕ → ℕ → Bool → ℕ → Option ℕ → Passage → Counters → Bool × Counters
auth_rate_limit max window_ms refund_on_success now none passage counters = (true, counters)
auth_rate_limit max window_ms refund_on_success now (some key) passage counters =
    limited key max refund_on_success passage passage.store counters
      (hit key (length_ms window_ms) now counters)
