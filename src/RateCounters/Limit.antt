-- ===== src/RateCounters/Limit.antt =====
-- How many requests a limiter of src/app/middlewares/authRateLimitMiddleware.ts lets pass in one window.
use mathlib.Core.Path.{subst}
use lag_money_manager.Prelude.{
  ℕ, suc, ◌+◌, ◌-◌, ◌≤◌, ◌<◌, Bool, true, false, ◌≡◌, refl, ap, sym, ◌∙◌, some, List, [], ◌∷◌, ◌==◌,
  ltb, leb, All, if◌then◌else◌, Bool-cases, inl, inr, arith, bit,
}
use lag_money_manager.RateCounters.{
  RateCount, CounterWindow, length_ms, Counters, hit_found, put, hit, refund, auth_rate_limit,
  Passage, StoreReply, replies, fails, fails_late, settled, limited, is_refunded,
}

-- A request: when it comes, and what befalls it.
abbrev pub Attempt : Type 0
Attempt = ℕ × Passage

-- How many requests of a key pass and are not answered well, each answered before the next comes.
unfoldable pub failures_passed : ℕ → ℕ → Bool → ℕ → List Attempt → Counters → ℕ
failures_passed max window_ms refunds key [] counters = 0
failures_passed max window_ms refunds key (attempt ∷ attempts) counters =
    let answer = auth_rate_limit max window_ms refunds attempt.0 (some key) attempt.1 counters in
    (if attempt.1.answered_well then 0 else bit answer.0)
    + failures_passed max window_ms refunds key attempts answer.1

abbrev pub is_failing : StoreReply → Bool
is_failing replies = false
is_failing _ = true

-- How many of them the store fails to count for the limiter.
abbrev pub store_failures : List Attempt → ℕ
store_failures [] = 0
store_failures (attempt ∷ attempts) = bit (is_failing attempt.1.store) + store_failures attempts

put_here :
    (key : ℕ) (value : RateCount) (counters : Counters) → put key value counters key ≡ some value
put_here key value counters = let e : (key == key) ≡ true = ground arith in rw e

refund_here :
    (key : ℕ) (value : RateCount) (counters : Counters)
    → refund key (put key value counters) key ≡ some (record value { count = value.count - 1 })
unfolding refund
refund_here key value counters = let e : (key == key) ≡ true = ground arith in rw e

-- A hit within the window counts one more.
hit_within :
    (window : CounterWindow) (now : ℕ) (found : RateCount)
    → now < found.expires_at
    → hit_found window now (some found)
      ≡ record { count = suc found.count; expires_at = found.expires_at }
hit_within window now found h = let e : leb found.expires_at now ≡ false = ground arith in rw e

same_count :
    (found : RateCount)
    → record { count = suc found.count - 1; expires_at = found.expires_at } ≡ found
same_count found = let e : suc found.count - 1 ≡ found.count = omega arith in rw e

if_le : (b : Bool) (n : ℕ) → (if b then 0 else n) ≤ n
if_le b n = ground arith

-- One request that the limiter counts: the count after it, refunded or not, leaves room for it.
settled_room :
    (key max : ℕ) (refunds : Bool) (passage : Passage) (found : RateCount) (counters : Counters)
    → let value : RateCount = record { count = suc found.count; expires_at = found.expires_at } in
      let answer = settled key max (is_refunded refunds passage) (value, put key value counters) in
      (after : RateCount) × (answer.1 key ≡ some after)
      × (after.expires_at ≡ found.expires_at)
      × ((if passage.answered_well then 0 else bit answer.0) + (max - after.count)
          ≤ max - found.count)
settled_room key max refunds passage found counters =
    let value : RateCount = record { count = suc found.count; expires_at = found.expires_at } in
    let given_back : RateCount = record { count = found.count; expires_at = found.expires_at } in
    let here = put_here key value counters in
    let back = refund_here key value counters ∙ ap some (same_count found) in
    elim (Bool-cases (ltb max (suc found.count))) [
      | inl e ↦ rw e (value, here, refl, ground arith)
      | inr e ↦ elim (Bool-cases (is_refunded refunds passage)) [
        | inl r ↦
            (let well : passage.answered_well ≡ true = ground arith in
              rw (e, r) (given_back, back, refl, rw well (omega arith)))
        | inr r ↦ rw (e, r) (value, here, refl, ground arith)
      ]
    ]

-- What one request takes of the room under the limit, where a failure of the store gives one more.
limited_room :
    (key max : ℕ) (refunds : Bool) (passage : Passage) (reply : StoreReply) (found : RateCount)
    (counters : Counters)
    → counters key ≡ some found
    → let value : RateCount = record { count = suc found.count; expires_at = found.expires_at } in
      let answer = limited key max refunds passage reply counters (value, put key value counters) in
      (after : RateCount) × (answer.1 key ≡ some after)
      × (after.expires_at ≡ found.expires_at)
      × ((if passage.answered_well then 0 else bit answer.0) + (max - after.count)
          ≤ (max - found.count) + bit (is_failing reply))
limited_room key max refunds passage replies found counters here =
    let room = settled_room key max refunds passage found counters in
    (room.0, room.1, room.2, omega (arith, room.3))
limited_room key max refunds passage fails found counters here =
    (found, here, refl, omega (arith, if_le passage.answered_well 1))
limited_room key max refunds passage fails_late found counters here =
    let value : RateCount = record { count = suc found.count; expires_at = found.expires_at } in
    (value, put_here key value counters, refl, omega (arith, if_le passage.answered_well 1))

attempt_room :
    (max window_ms : ℕ) (refunds : Bool) (key now : ℕ) (passage : Passage) (counters : Counters)
    (found : RateCount)
    → counters key ≡ some found
    → now < found.expires_at
    → let answer = auth_rate_limit max window_ms refunds now (some key) passage counters in
      (after : RateCount) × (answer.1 key ≡ some after)
      × (after.expires_at ≡ found.expires_at)
      × ((if passage.answered_well then 0 else bit answer.0) + (max - after.count)
          ≤ (max - found.count) + bit (is_failing passage.store))
unfolding auth_rate_limit hit
attempt_room max window_ms refunds key now passage counters found here early =
    let counted =
      ap (hit_found (length_ms window_ms) now) here
      ∙ hit_within (length_ms window_ms) now found early in
    rw counted (limited_room key max refunds passage passage.store found counters here)

bounded :
    (max window_ms : ℕ) (refunds : Bool) (key until : ℕ) (attempts : List Attempt)
    (counters : Counters) (found : RateCount)
    → counters key ≡ some found
    → found.expires_at ≡ until
    → All (λ attempt. attempt.0 < until) attempts
    → failures_passed max window_ms refunds key attempts counters
      ≤ (max - found.count) + store_failures attempts
unfolding failures_passed
bounded max window_ms refunds key until [] counters found here same a = omega arith
bounded max window_ms refunds key until (attempt ∷ attempts) counters found here same a =
    let room =
      attempt_room max window_ms refunds key attempt.0 attempt.1 counters found here
        (subst (λ u. attempt.0 < u) (sym same) a.0) in
    let answer = auth_rate_limit max window_ms refunds attempt.0 (some key) attempt.1 counters in
    omega (
      arith,
      room.3,
      bounded max window_ms refunds key until attempts answer.1 room.0 room.1 (room.2 ∙ same) a.1,
    )

-- In one window of a key, of requests that are each answered before the next comes, those that pass and are not answered well by `res.json` are at most as many as the limit leaves over the count at its start, and one for each time that the store fails, since the limiter then fails open. It is so whether good ones are refunded or not, and however many come.
pub failures_passed_bound :
    (max window_ms : ℕ) (refunds : Bool) (key : ℕ) (attempts : List Attempt) (counters : Counters)
    (found : RateCount)
    → counters key ≡ some found
    → All (λ attempt. attempt.0 < found.expires_at) attempts
    → failures_passed max window_ms refunds key attempts counters
      ≤ (max - found.count) + store_failures attempts
failures_passed_bound max window_ms refunds key attempts counters found here a =
    bounded max window_ms refunds key found.expires_at attempts counters found here refl a
