-- ===== src/Server/Pipeline.antt =====
-- The way of a proxied request: `rl.Wrap(observed)` of cmd/gateway/main.go, with Wrap of
-- internal/middleware/ratelimit.go over the tenants of internal/tenant/tenant.go and Allow of
-- internal/limiter/redis.go.
pub mod Steps
pub mod Callers
pub mod Outage
pub mod Isolated
pub mod Overlap
use ratelimit_gateway.Base.{
  ℕ, String, Bool, true, false, Option, none, some, List, [], ◌∷◌, map, if◌then◌else◌, Outcome, ok,
  err,
}
use ratelimit_gateway.Http.{Response}
use ratelimit_gateway.Number.{Number}
use ratelimit_gateway.Limiter.Redis as Redis
use ratelimit_gateway.Limiter.Redis.{ℤ, pos, negsuc, Quota, RedisLimiter, Args, Value}
use ratelimit_gateway.Gateway.Breaker as Breaker
use ratelimit_gateway.Gateway.Breaker.{new_breaker}
use ratelimit_gateway.Gateway.Middleware.{Decision, RateLimit, wrap}
use ratelimit_gateway.Gateway.Tenant.{Resolver, Request, quota, resolve}

-- What changes while the gateway serves: the middleware and what Redis keeps.
pub record Running {ℓ} (S : Type ℓ) : Type ℓ where
  pub rl : RateLimit
  pub store : S

-- A request with what the outside gives to it: the times at which the breaker is asked, the limiter
-- reads the clock, and its answer comes; what `uniqueMember` returns; the upstream's response.
pub record Arrival : Type 0 where
  pub request : Request
  pub started : ℕ
  pub called : ℕ
  pub ended : ℕ
  pub member : Option String
  pub upstream : Response

-- The scripts return no number below zero.
abbrev pub magnitude : ℤ → ℕ
magnitude (pos n) = n
magnitude (negsuc n) = 0

-- A decision of redis.go as the middleware reads it, or an error.
abbrev pub verdict_of : Outcome Redis.Error Redis.Decision → Option Decision
verdict_of (err e) = none
verdict_of (ok d) = some (record {
  allowed = d.allowed;
  limit = d.limit;
  remaining = magnitude d.remaining;
  retry_after = magnitude d.retry_after_ms;
  reset_after = magnitude d.reset_after_ms;
})

-- `NewRateLimit` in main.go: the policy, the threshold and the cooldown of the configuration.
abbrev pub new_rate_limit : Bool → ℕ → ℕ → RateLimit
new_rate_limit fail_open threshold cooldown = record {
  fail_open = fail_open;
  breaker = new_breaker threshold cooldown 1;
  breaker_gauge = none;
  decisions = [];
  errors = [];
}

module _ {κ ℓ} {N : Type κ} ⦃num : Number N⦄ {S : Type ℓ}
    (run : String → Args N → S → Option (List Value) × S) (resolver : Resolver)
    (limiter : RedisLimiter) where
  -- The limiter is asked only if the breaker lets the call through.
  unfoldable pub handle_proxied : Arrival → Running S → Response × Running S
  handle_proxied a g =
      let tenant = resolve resolver a.request in
      let asked = (Breaker.allow a.started g.rl.breaker).0 in
      let (outcome, after) =
        Redis.allow run limiter a.called a.member tenant.id (quota tenant.tier) g.store in
      let (response, rl) =
        wrap a.started a.ended tenant.tier.name (verdict_of outcome) a.upstream g.rl in
      (response, record { rl = rl; store = if asked then after else g.store })

  -- Requests one after the other.
  unfoldable pub serve_all : List Arrival → Running S → List Response × Running S
  serve_all [] g = ([], g)
  serve_all (a ∷ rest) g =
      let (response, after) = handle_proxied a g in
      let (responses, last) = serve_all rest after in (response ∷ responses, last)
