-- ===== src/RateCounters/Tests.antt =====
-- Requests against a limit of two in a minute.
use lag_money_manager.Prelude.{
  Bool, ◌+◌, ◌-◌, ◌≤◌, ◌<◌, true, false, ◌≡◌, refl, none, some, List, [], ◌∷◌, ◌==◌, All, arith,
  if◌then◌else◌,
}
use lag_money_manager.RateCounters.{
  Counters, hit, length_ms, auth_rate_limit, Passage, StoreReply, replies, fails,
}
use lag_money_manager.RateCounters.Limit.{
  Attempt, failures_passed, store_failures, failures_passed_bound,
}

abbrev empty : Counters
empty key = none

abbrev one_hit : Counters
one_hit key = if key == 8 then some (record { count = 1; expires_at = 61000 }) else none

first_hit : (hit 8 (length_ms 60000) 1000 empty).0 ≡ record { count = 1; expires_at = 61000 }
unfolding hit
first_hit = refl

abbrev passage : StoreReply → Bool → Passage
passage reply well = record { store = reply; answered_well = well; refund_fails = false }

-- The third one comes while the store fails.
abbrev attempts : List Attempt
attempts =
    (2000, passage replies false)
    ∷ (3000, passage replies true)
    ∷ (3500, passage fails false)
    ∷ (4000, passage replies false)
    ∷ []

two_pass : failures_passed 2 60000 true 8 attempts one_hit ≡ 2
unfolding failures_passed auth_rate_limit hit
two_pass = refl

in_window : All (λ (attempt : Attempt). attempt.0 < 61000) attempts
in_window = (omega arith, (omega arith, (omega arith, (omega arith, tt))))

failures_passed_bound_example :
    failures_passed 2 60000 true 8 attempts one_hit ≤ (2 - 1) + store_failures attempts
failures_passed_bound_example =
    failures_passed_bound 2 60000 true 8 attempts one_hit (record { count = 1; expires_at = 61000 })
      refl in_window
