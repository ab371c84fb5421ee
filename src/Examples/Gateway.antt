-- ===== src/Examples/Gateway.antt =====
-- The gateway, with a limiter that is a counter.
use ratelimit_gateway.Base.{
  ℕ, zero, suc, ◌*◌, ◌≤◌, ◌≡◌, refl, String, true, false, Option, none, some, [], ◌∷◌, All, arith,
  take, get_elem?, decimal,
}
use ratelimit_gateway.Number.Fixed.{Fixed, pos, fixed_number}
use ratelimit_gateway.Http.{Response}
use ratelimit_gateway.Gateway.Breaker.{
  closed, open_state, Breaker, new_breaker, allow, run_calls, allow_call, failure_call,
}
use ratelimit_gateway.Gateway.Breaker.Bounds.{
  IsValid, admitted, run_calls-new_breaker-IsValid, admitted_recovering,
}
use ratelimit_gateway.Gateway.Breaker.Trips.{failures_at, failures_trip, admitted-failures}
use ratelimit_gateway.Gateway.Middleware.{policy, Decision, RateLimit, wrap}
use ratelimit_gateway.Gateway.Middleware.Outcomes.{wrap_decided, wrap_undecided}
use ratelimit_gateway.Gateway.Simulate as Server
use ratelimit_gateway.Gateway.Simulate.{
  World, Tally, Request, burst, simulated, handle_simulate, simulate_from, clamp_count,
}
use ratelimit_gateway.Gateway.Simulate.Counts.{IsTally, handle_simulate-IsTally}
use ratelimit_gateway.Dashboard.Simulator.{first_rejected}
use ratelimit_gateway.Integration.Burst.{first_rejected-handle_simulate}
use ratelimit_gateway.Integration.Degraded.{update_meter-undecided, detail_of-undecided}
use ratelimit_gateway.Console.Result.{result_of}
use ratelimit_gateway.Console.Meter.{Meter, update_meter}
use ratelimit_gateway.Console.Log.{dot_of, detail_of}

abbrev number : ℕ → Fixed
number n = pos (n * 1000)

abbrev breaker : Breaker
breaker = record {
  state = closed;
  failures = 0;
  probes = 0;
  opened_at = 0;
  threshold = 3;
  cooldown = 100;
  max_probes = 2;
}

abbrev open_breaker : Breaker
open_breaker = record breaker { state = open_state; failures = 3; opened_at = 50 }

run_calls-new_breaker-IsValid_example : IsValid (
    run_calls
      ((failure_call, 1) ∷ (failure_call, 2) ∷ (allow_call, 150) ∷ [])
      (new_breaker 2 100 0))
run_calls-new_breaker-IsValid_example =
    run_calls-new_breaker-IsValid 2 100 0
      ((failure_call, 1) ∷ (failure_call, 2) ∷ (allow_call, 150) ∷ [])

open_breaker-IsValid : IsValid open_breaker
open_breaker-IsValid = ground arith

admitted_recovering_run : admitted (150 ∷ 151 ∷ 152 ∷ []) open_breaker ≡ 2
admitted_recovering_run =
    admitted_recovering 150 (151 ∷ 152 ∷ []) open_breaker open_breaker-IsValid refl (omega arith)

failures_trip_run :
    (run_calls (failures_at (10 ∷ 20 ∷ [])) breaker ≡ record breaker { failures = 2 })
    × (run_calls (failures_at (10 ∷ 20 ∷ 50 ∷ [])) breaker ≡ open_breaker)
failures_trip_run = failures_trip (10 ∷ 20 ∷ []) 50 breaker refl refl

admitted-failures_example :
    admitted (60 ∷ 149 ∷ []) (run_calls (failures_at (10 ∷ 20 ∷ 50 ∷ [])) breaker) ≡ 0
admitted-failures_example =
    admitted-failures (10 ∷ 20 ∷ []) 50 (60 ∷ 149 ∷ []) breaker refl refl (omega arith)

abbrev upstream : Response
upstream = record { status = 200; header = λ name. none }

abbrev refusal : Decision
refusal = record {
  allowed = false;
  limit = 20;
  remaining = 0;
  retry_after = 1700;
  reset_after = 900;
}

abbrev rate_limit : RateLimit
rate_limit = record {
  fail_open = false;
  breaker = breaker;
  breaker_gauge = none;
  decisions = [];
  errors = [];
}

wrap_decided_example :
    let (res, after) = wrap 5 6 "free" (some refusal) upstream rate_limit in
    (res.status ≡ 429)
    × (res.header "X-RateLimit-Limit" ≡ some "20")
    × (res.header "X-RateLimit-Remaining" ≡ some "0")
    × (res.header "Retry-After" ≡ some "2")
    × (after.decisions ≡ ("free", "throttled") ∷ [])
    × (after.errors ≡ [])
unfolding allow decimal
wrap_decided_example =
    wrap_decided 5 6 "free" upstream rate_limit refusal (some refusal) (refl, refl) refl refl

wrap_undecided_example :
    let (res, after) = wrap 5 6 "free" none upstream rate_limit in
    (res.status ≡ 503)
    × (res.header "X-RateLimit-Degraded" ≡ none)
    × (res.header "Retry-After" ≡ some "1")
    × (after.decisions ≡ ("free", "degraded") ∷ [])
    × (after.errors ≡ ("limiter_error", "fail_closed") ∷ [])
unfolding allow policy
wrap_undecided_example = wrap_undecided 5 6 "free" upstream rate_limit none (λ h. refl) refl

abbrev meter : Meter Fixed
meter = record {
  remaining = "3";
  remaining_class = "meter-remaining low";
  limit = "20";
  fill_width = "15%";
  fill_class = "meter-fill low";
  tier_badge = "anonymous";
  tier_detail = "limit 20 per window";
  status_text = "allowed";
  status_class = "meter-status ok";
  reset_at = none;
  ticking = false;
  reset_text = "—";
}

update_meter-undecided_example :
    update_meter
      (number 9)
      (result_of (wrap 5 6 "free" none upstream rate_limit).0 (number 3))
      meter
    ≡ meter
update_meter-undecided_example =
    update_meter-undecided 5 6 "free" upstream rate_limit none (number 3) (number 9) meter
      (λ h. refl) refl

detail_of-undecided_example :
    let result = result_of {N = Fixed} (wrap 5 6 "free" none upstream rate_limit).0 (number 3) in
    (result.status ≡ 503)
    × ((dot_of result).title ≡ "request failed")
    × (detail_of result ≡ "allowed")
detail_of-undecided_example =
    detail_of-undecided 5 6 "free" upstream rate_limit none (number 3) (λ h. refl) refl

-- A limiter with so many requests left.
abbrev counter : ℕ → Option Server.Decision × ℕ
counter zero = (some (record { allowed = false; remaining = 0; retry_after_ms = 50 }), 0)
counter (suc n) = (some (record { allowed = true; remaining = n; retry_after_ms = 0 }), n)

abbrev world : World ℕ
world = record { limiter = 1; recorded = [] }

abbrev tally : Tally
tally = record {
  allowed = 1;
  throttled = 1;
  results =
      record { index = 1; allowed = true; remaining = 0; retry_after_ms = 0 }
      ∷ record { index = 2; allowed = false; remaining = 0; retry_after_ms = 50 }
      ∷ [];
}

simulated_two : (handle_simulate counter (burst "free" true 2) world).0 ≡ simulated tally
unfolding handle_simulate simulate_from
simulated_two = refl

handle_simulate-IsTally_example :
    (tier : String) × (count : ℕ) × (burst "free" true 2 ≡ burst tier true count)
    × IsTally (clamp_count count) tally
    × (1 ≤ 2)
    × (2 ≤ 500)
handle_simulate-IsTally_example =
    handle_simulate-IsTally counter (burst "free" true 2) world tally simulated_two

first_rejected-handle_simulate_example :
    (r : Server.SimulateResult) × (get_elem? tally.results 1 ≡ some r)
    × (r.index ≡ 2)
    × (r.allowed ≡ false)
    × All (λ s. s.allowed ≡ true) (take 1 tally.results)
unfolding first_rejected
first_rejected-handle_simulate_example =
    first_rejected-handle_simulate {N = Fixed} counter (burst "free" true 2) world "free" (number 1)
      tally 1 simulated_two refl
