-- ===== src/Examples/LoadTest.antt =====
-- An iteration of the load test at a gateway that throttles.
use ratelimit_gateway.Base.{
  str_eq, decimal, ◌+◌, ◌≡◌, refl, true, false, not, ◌&&◌, ◌||◌, Option, none, some, [], ◌∷◌, ◌++◌,
  if◌then◌else◌, ◌==◌,
}
use ratelimit_gateway.Http.{Response}
use ratelimit_gateway.Number.Fixed.{Fixed, pos, fixed_number}
use ratelimit_gateway.Gateway.Breaker.{new_breaker, allow}
use ratelimit_gateway.Gateway.Middleware.{
  Decision, RateLimit, wrap, apply_decision, write_rate_limit_headers,
}
use ratelimit_gateway.LoadTest.{Metrics, HttpResponse, throughput, throttling}
use ratelimit_gateway.LoadTest.Answers.{IsReadAs, is_decided, iterations-wrap}

abbrev middleware : RateLimit
middleware = record {
  fail_open = true;
  breaker = new_breaker 3 100 2;
  breaker_gauge = none;
  decisions = [];
  errors = [];
}

abbrev refusal : Option Decision
refusal =
    some (record {
      allowed = false;
      limit = 10;
      remaining = 0;
      retry_after = 2000;
      reset_after = 9000;
    })

abbrev upstream : Response
upstream = record { status = 200; header = λ name. none }

abbrev response : HttpResponse Fixed
response = record {
  status = 429;
  headers = λ name.
      if str_eq name "Retry-After"
      then some "2"
      else if str_eq name "X-Ratelimit-Limit"
      then some "10"
      else none;
  duration = pos 3000;
}

abbrev metrics : Metrics Fixed
metrics = record { allowed = 4; throttled = 1; degraded = 0; latency = []; checks = [] }

response-IsReadAs : IsReadAs (wrap 5 6 "free" refusal upstream middleware).0 response
unfolding wrap allow new_breaker apply_decision decimal write_rate_limit_headers
response-IsReadAs = record { same_status = refl; retry_after = refl; limit = refl; degraded = refl }

iterations-wrap_example :
    let decided = is_decided 5 refusal middleware in
    let answered = decided || middleware.fail_open in
    let throttled = throttling response metrics in
    let through = throughput response metrics in
    (throttled.checks
      ≡ metrics.checks
        ++ ("answered 200 or 429", answered) ∷ ("rejection carries Retry-After", true) ∷ [])
    × (throttled.allowed + throttled.throttled
        ≡ metrics.allowed + metrics.throttled + (if answered then 1 else 0))
    × (through.checks
        ≡ metrics.checks
          ++ ("admitted under quota", response.status == 200)
            ∷ ("quota headers present", decided)
            ∷ [])
    × (through.degraded ≡ metrics.degraded + (if not decided && middleware.fail_open then 1 else 0))
iterations-wrap_example =
    iterations-wrap 5 6 "free" refusal upstream middleware response metrics refl refl refl
      response-IsReadAs
