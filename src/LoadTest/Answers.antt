-- ===== src/LoadTest/Answers.antt =====
-- The load test at the gateway: scripts/loadtest.js with internal/middleware/ratelimit.go.
use ratelimit_gateway.Base.{
  ℕ, ◌+◌, ◌≡◌, refl, String, Bool, true, false, not, ◌&&◌, ◌||◌, Option, none, some, [], ◌∷◌, ◌++◌,
  if◌then◌else◌, ◌==◌, arith,
}
use ratelimit_gateway.Number.{Number}
use ratelimit_gateway.Http.{Response}
use ratelimit_gateway.Gateway.Breaker.{allow}
use ratelimit_gateway.Gateway.Middleware.{
  Decision, RateLimit, serve_upstream, write_rate_limit_headers, apply_failure_policy,
  apply_decision, wrap,
}
use ratelimit_gateway.LoadTest.{Metrics, HttpResponse, throughput, throttling, is_text}

-- k6 names the headers of a response as Go writes them: each word of a name with one capital.
pub record IsReadAs {ℓ} {N : Type ℓ} (sent : Response) (res : HttpResponse N) : Type 0 where
  pub same_status : res.status ≡ sent.status
  pub retry_after : res.headers "Retry-After" ≡ sent.header "Retry-After"
  pub limit : res.headers "X-Ratelimit-Limit" ≡ sent.header "X-RateLimit-Limit"
  pub degraded : res.headers "X-Ratelimit-Degraded" ≡ sent.header "X-RateLimit-Degraded"

-- The limiter decides this request.
abbrev pub is_decided : ℕ → Option Decision → RateLimit → Bool
is_decided now verdict rl =
    (allow now rl.breaker).0 && elim verdict [ none ↦ false | some d ↦ true ]

raised :
    (n : ℕ) (mark : Bool)
    → (if is_text "true" (if mark then some "true" else none) then n + 1 else n)
      ≡ n + (if mark then 1 else 0)
raised n true = refl
raised n false = omega arith

module _ {ℓ} {N : Type ℓ} ⦃num : Number N⦄ (now ended : ℕ) (tier : String)
    (verdict : Option Decision) (upstream : Response) (rl : RateLimit) (res : HttpResponse N)
    (m : Metrics N) where
  throttling-wrap :
      upstream.status ≡ 200
      → IsReadAs (wrap now ended tier verdict upstream rl).0 res
      → let answered = is_decided now verdict rl || rl.fail_open in
        let after = throttling res m in
        (after.checks
          ≡ m.checks
            ++ ("answered 200 or 429", answered) ∷ ("rejection carries Retry-After", true) ∷ [])
        × (after.allowed + after.throttled ≡ m.allowed + m.throttled + (if answered then 1 else 0))
  unfolding wrap apply_failure_policy apply_decision serve_upstream throttling
  throttling-wrap fine read = ground arith

  degraded-wrap :
      upstream.header "X-RateLimit-Degraded" ≡ none
      → IsReadAs (wrap now ended tier verdict upstream rl).0 res
      → res.headers "X-Ratelimit-Degraded"
        ≡ (if not (is_decided now verdict rl) && rl.fail_open then some "true" else none)
  unfolding wrap apply_failure_policy apply_decision serve_upstream write_rate_limit_headers
  degraded-wrap no_degraded read = ground arith

  throughput-wrap :
      upstream.header "X-RateLimit-Limit" ≡ none
      → upstream.header "X-RateLimit-Degraded" ≡ none
      → IsReadAs (wrap now ended tier verdict upstream rl).0 res
      → let decided = is_decided now verdict rl in
        let after = throughput res m in
        (after.checks
          ≡ m.checks
            ++ ("admitted under quota", res.status == 200)
              ∷ ("quota headers present", decided)
              ∷ [])
        × (after.degraded ≡ m.degraded + (if not decided && rl.fail_open then 1 else 0))
  unfolding wrap apply_failure_policy apply_decision serve_upstream write_rate_limit_headers
      throughput
  throughput-wrap no_limit no_degraded read = (
    ground arith,
    rw (degraded-wrap no_degraded read)
        (raised m.degraded (not (is_decided now verdict rl) && rl.fail_open)),
  )

  -- An iteration of the load test at the gateway, with an upstream that answers 200 and sets none
  -- of the gateway's headers. Of `throttling` the check on Retry-After always passes; the one on
  -- the status passes unless the limiter could not decide and the policy is closed; and one of the
  -- counters of admitted and throttled requests is raised, or none in that case. Of `throughput`
  -- the check on the quota's headers passes just when the limiter decides, and the degraded
  -- requests are counted that it does not decide under the open policy.
  pub iterations-wrap :
      upstream.status ≡ 200
      → upstream.header "X-RateLimit-Limit" ≡ none
      → upstream.header "X-RateLimit-Degraded" ≡ none
      → IsReadAs (wrap now ended tier verdict upstream rl).0 res
      → let decided = is_decided now verdict rl in
        let answered = decided || rl.fail_open in
        let throttled = throttling res m in
        let through = throughput res m in
        (throttled.checks
          ≡ m.checks
            ++ ("answered 200 or 429", answered) ∷ ("rejection carries Retry-After", true) ∷ [])
        × (throttled.allowed + throttled.throttled
            ≡ m.allowed + m.throttled + (if answered then 1 else 0))
        × (through.checks
            ≡ m.checks
              ++ ("admitted under quota", res.status == 200)
                ∷ ("quota headers present", decided)
                ∷ [])
        × (through.degraded ≡ m.degraded + (if not decided && rl.fail_open then 1 else 0))
  iterations-wrap fine no_limit no_degraded read =
      let slow = throttling-wrap fine read in
      let fast = throughput-wrap no_limit no_degraded read in (slow.0, slow.1, fast.0, fast.1)
