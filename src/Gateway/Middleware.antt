-- ===== src/Gateway/Middleware.antt =====
-- The HTTP layer: `Wrap` of internal/middleware/ratelimit.go. The limiter's verdict and the
-- upstream's response are parameters of a request: `none` for a limiter that cannot decide.
pub mod Outcomes
use ratelimit_gateway.Base.{
  ℕ, ◌+◌, ◌/◌, String, Bool, true, false, Option, none, some, List, [], ◌∷◌, ◌++◌, if◌then◌else◌,
  ltb, str_eq, decimal, template,
}
use ratelimit_gateway.Http.{Headers, Response}
use ratelimit_gateway.Gateway.Breaker.{
  State, closed, open_state, half_open, Breaker, allow, success, failure, reported_state,
}

-- A `limiter.Decision`, its durations in milliseconds; no field is negative.
pub record Decision : Type 0 where
  pub allowed : Bool
  pub limit : ℕ
  pub remaining : ℕ
  pub retry_after : ℕ
  pub reset_after : ℕ

abbrev pub no_headers : Headers
no_headers name = none

abbrev pub set_header : String → String → Headers → Headers
set_header key value headers name = if str_eq key name then some value else headers name

-- The reverse proxy adds the upstream's headers to those that are there, and a client reads the
-- values of one name as one list.
abbrev pub add_value : Option String → Option String → Option String
add_value none theirs = theirs
add_value (some ours) none = some ours
add_value (some ours) (some theirs) = some (template (ours ∷ ", " ∷ theirs ∷ []))

unfoldable pub serve_upstream : Response → Headers → Response
serve_upstream upstream headers = record {
  status = upstream.status;
  header = λ name. add_value (headers name) (upstream.header name);
}

-- `d.Round(time.Second) / time.Second` for a duration in milliseconds.
abbrev pub whole_seconds : ℕ → ℕ
whole_seconds ms = (ms + 500) / 1000

unfoldable pub write_rate_limit_headers : Decision → Headers → Headers
write_rate_limit_headers d headers =
    set_header "X-RateLimit-Reset" (decimal (whole_seconds d.reset_after)) (
      set_header "X-RateLimit-Remaining" (decimal d.remaining)
        (set_header "X-RateLimit-Limit" (decimal d.limit) headers))

-- The middleware: the policy, the breaker, and the counters that it increments: decisions by tier
-- and outcome, and limiter errors by reason and policy.
pub record RateLimit : Type 0 where
  pub fail_open : Bool
  pub breaker : Breaker
  pub breaker_gauge : Option State
  pub decisions : List (String × String)
  pub errors : List (String × String)

unfoldable pub policy : RateLimit → String
policy rl = if rl.fail_open then "fail_open" else "fail_closed"

abbrev pub count_decision : String → String → RateLimit → RateLimit
count_decision tier outcome rl = record rl { decisions = (tier, outcome) ∷ rl.decisions }

abbrev pub count_error : String → RateLimit → RateLimit
count_error reason rl = record rl { errors = (reason, policy rl) ∷ rl.errors }

unfoldable pub apply_failure_policy : String → Response → RateLimit → Response × RateLimit
apply_failure_policy tier upstream rl =
    let counted = count_decision tier "degraded" rl in
    if rl.fail_open
    then (serve_upstream upstream (set_header "X-RateLimit-Degraded" "true" no_headers), counted)
    else (record { status = 503; header = set_header "Retry-After" "1" no_headers }, counted)

-- A decision of the limiter.
unfoldable pub apply_decision : String → Response → Decision → RateLimit → Response × RateLimit
apply_decision tier upstream d rl =
    let headers = write_rate_limit_headers d no_headers in
    let seconds = whole_seconds d.retry_after in
    let retry_after = if ltb seconds 1 then 1 else seconds in
    if d.allowed then (serve_upstream upstream headers, count_decision tier "allowed" rl) else (
      record { status = 429; header = set_header "Retry-After" (decimal retry_after) headers },
      count_decision tier "throttled" rl,
    )

-- What the handler does with the answer of `breaker.Allow()`. The second time is that of the call
-- of `breaker.Failure()`.
abbrev pub wrap_admitted :
    ℕ → String → Option Decision → Response → Bool × Breaker → RateLimit → Response × RateLimit
wrap_admitted ended tier verdict upstream (false, b) rl =
    apply_failure_policy tier upstream (count_error "breaker_open" (record rl { breaker = b }))
wrap_admitted ended tier none upstream (true, b) rl =
    apply_failure_policy tier upstream
      (count_error "limiter_error" (record rl { breaker = failure ended b }))
wrap_admitted ended tier (some d) upstream (true, b) rl =
    apply_decision tier upstream d (record rl { breaker = success b })

-- A request: the times of its start and of the limiter's answer, the caller's tier, what the
-- limiter would answer, and what the upstream would.
unfoldable pub wrap : ℕ → ℕ → String → Option Decision → Response → RateLimit → Response × RateLimit
wrap now ended tier verdict upstream rl =
    let observed = record rl { breaker_gauge = some (reported_state now rl.breaker) } in
    wrap_admitted ended tier verdict upstream (allow now rl.breaker) observed
