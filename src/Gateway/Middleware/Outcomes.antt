-- ===== src/Gateway/Middleware/Outcomes.antt =====
-- What a caller gets from the middleware, and what it counts.
use Prim.Native.Nat.{max}
use ratelimit_gateway.Base.{
  ℕ, ◌≡◌, String, true, Option, none, some, ◌∷◌, if◌then◌else◌, decimal, arith,
}
use ratelimit_gateway.Http.{Response}
use ratelimit_gateway.Gateway.Breaker.{allow}
use ratelimit_gateway.Gateway.Middleware.{
  Decision, RateLimit, serve_upstream, write_rate_limit_headers, apply_failure_policy,
  apply_decision, wrap, whole_seconds, policy,
}

-- The limiter has decided on this request: the breaker let the call through, and the call
-- returned a decision.
abbrev pub IsDecided : ℕ → Option Decision → RateLimit → Decision → Type 0
IsDecided now verdict rl d = ((allow now rl.breaker).0 ≡ true) × (verdict ≡ some d)

-- It has not: the breaker is open, or the limiter failed.
abbrev pub IsUndecided : ℕ → Option Decision → RateLimit → Type 0
IsUndecided now verdict rl = (allow now rl.breaker).0 ≡ true → verdict ≡ none

module _ (now ended : ℕ) (tier : String) (upstream : Response) (rl : RateLimit) where
  -- A request that is decided is refused with 429 if the decision refuses it, and the answer then
  -- tells to wait for the decision's time, rounded to seconds, and for one at least; else it is
  -- the upstream's answer. Either way the quota is in its headers, where the upstream sets no such
  -- header, one decision is counted under its tier, and no error.
  pub wrap_decided :
      (d : Decision) (verdict : Option Decision)
      → IsDecided now verdict rl d
      → upstream.header "X-RateLimit-Limit" ≡ none
      → upstream.header "X-RateLimit-Remaining" ≡ none
      → let (res, after) = wrap now ended tier verdict upstream rl in
        (res.status ≡ (if d.allowed then upstream.status else 429))
        × (res.header "X-RateLimit-Limit" ≡ some (decimal d.limit))
        × (res.header "X-RateLimit-Remaining" ≡ some (decimal d.remaining))
        × (res.header "Retry-After" ≡ (
            if d.allowed
            then upstream.header "Retry-After"
            else some (decimal (max 1 (whole_seconds d.retry_after)))))
        × (after.decisions ≡ (tier, if d.allowed then "allowed" else "throttled") ∷ rl.decisions)
        × (after.errors ≡ rl.errors)
  unfolding wrap apply_decision serve_upstream write_rate_limit_headers
  wrap_decided d verdict (passed, decided) no_limit no_remaining = ground arith

  -- A request that the limiter could not decide gets the upstream's answer under the open policy,
  -- marked as degraded where the upstream sets no such header, and under the closed one 503 with
  -- the advice to wait for a second. It is counted as degraded, and one error is counted, which
  -- tells an open breaker from a failed call of the limiter.
  pub wrap_undecided :
      (verdict : Option Decision)
      → IsUndecided now verdict rl
      → upstream.header "X-RateLimit-Degraded" ≡ none
      → let (res, after) = wrap now ended tier verdict upstream rl in
        let reason : String =
          if (allow now rl.breaker).0 then "limiter_error" else "breaker_open" in
        (res.status ≡ (if rl.fail_open then upstream.status else 503))
        × (res.header "X-RateLimit-Degraded" ≡ (if rl.fail_open then some "true" else none))
        × (res.header "Retry-After"
            ≡ (if rl.fail_open then upstream.header "Retry-After" else some "1"))
        × (after.decisions ≡ (tier, "degraded") ∷ rl.decisions)
        × (after.errors ≡ (reason, policy rl) ∷ rl.errors)
  unfolding wrap apply_failure_policy serve_upstream policy
  wrap_undecided verdict undecided unmarked = ground arith
