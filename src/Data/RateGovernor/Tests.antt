-- ===== src/Data/RateGovernor/Tests.antt =====
-- The governor with a cap of one order a day, before a server that refuses two calls in three.
use ai_trading_system.Base.{
  ℕ, suc, ◌+◌, ◌≡◌, refl, true, Option, none, some, List, [], ◌∷◌, arith, is_some,
}
use ai_trading_system.Data.RateGovernor.{
  init, acquire, Caps, check_order_guard, record_order, Answer, answered, too_many, Outcome, result,
  State, call,
}
use ai_trading_system.Data.RateGovernor.Patience.{call-is_some}
use ai_trading_system.Data.RateGovernor.Limits.{acquire-none}
use ai_trading_system.Data.RateGovernor.Tally.{IsPaced, no_orders}
use ai_trading_system.Data.RateGovernor.Paced.{Pause, run, run-IsPaced}

-- a clock that oversleeps
abbrev late : ℕ → ℕ → ℕ
late now wait = now + wait + 3

abbrev third_time : ℕ → Answer ℕ × ℕ
third_time (suc (suc (suc n))) = (answered 77, 3 + n)
third_time n = (too_many, n + 1)

abbrev one_a_day : Caps
one_a_day = record { per_minute_cap = 200; daily_cap = 1; alert_threshold_pct = 800_000 }

-- one token of capacity and one a second
abbrev start : State ℕ
start = record { guard = no_orders; bucket = init 10_000 10_000 0; now = 0; server = 1 }

abbrev three_calls : List Pause
three_calls =
    record { days = 0; wait = 0 }
    ∷ record { days = 0; wait = 9_000_000 }
    ∷ record { days = 1; wait = 14_000_000 }
    ∷ []

abbrev outcome_of : Option (Outcome ℕ × State ℕ) → Option (Outcome ℕ × ℕ)
outcome_of none = none
outcome_of (some (o, s)) = some (o, s.now)

-- two retries, after two and four seconds
third_time_works :
    outcome_of (call late third_time one_a_day true 5 start) ≡ some (result 77, 6_000_006)
unfolding call init
third_time_works = refl

call-is_some_example : is_some (call late third_time one_a_day true 5 start) ≡ true
unfolding init
call-is_some_example =
    call-is_some late (λ t w. omega arith) third_time one_a_day true 5 start
      (record { roomy = omega arith; refilled = omega arith })

-- Two orders of a day are asked for, and one of the next: the second is refused.
run-IsPaced_example : IsPaced one_a_day (run late third_time one_a_day three_calls 5 start [])
run-IsPaced_example =
    run-IsPaced late third_time one_a_day (λ t w. omega arith) three_calls 5 start refl

two_answered :
    run late third_time one_a_day three_calls 5 start [] ≡ (6, 29_000_006) ∷ (5, 6_000_006) ∷ []
unfolding call init
two_answered = refl

never_served : acquire late 9 10_000 (init 5_000 10_000 0) 0 ≡ none
unfolding init
never_served = acquire-none late 9 10_000 (init 5_000 10_000 0) 0 (omega arith)

-- two callers that are both checked before either is recorded pass a cap of one
two_pass :
    let (first, g) = check_order_guard one_a_day 5 0 no_orders in
    let (second, g') = check_order_guard one_a_day 5 0 g in
    (first ≡ true)
    × (second ≡ true)
    × ((record_order one_a_day 2 (record_order one_a_day 1 g')).daily_count ≡ 2)
unfolding check_order_guard record_order
two_pass = (refl, refl, refl)
