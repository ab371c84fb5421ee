-- ===== src/Server/Pipeline/Steps.antt =====
-- One request on its way through the gateway of cmd/gateway/main.go, with the sliding window.
use ratelimit_gateway.Base.{
  ℕ, ◌<◌, ◌≡◌, refl, ap, String, true, Option, some, List, if◌then◌else◌, ◌==◌, arith,
}
use ratelimit_gateway.Http.{Response}
use ratelimit_gateway.Number.{Number}
use ratelimit_gateway.Limiter.Store.{SortedSets}
use ratelimit_gateway.Limiter.SlidingWindow as Script
use ratelimit_gateway.Limiter.Redis.{Args, Value, redis_key, window_ms}
use ratelimit_gateway.Limiter.Redis.Allowed.{IsSliding, sliding_limiter, allow-sliding_window}
use ratelimit_gateway.Gateway.Breaker.{Breaker, closed, allow, allow_in, success}
use ratelimit_gateway.Gateway.Middleware.{Decision, RateLimit, wrap, apply_decision, serve_upstream}
use ratelimit_gateway.Gateway.Tenant.{Tenant, Resolver, quota, resolve}
use ratelimit_gateway.Server.Pipeline.{Running, Arrival, handle_proxied}

pub allow-closed : (now : ℕ) (b : Breaker) → b.state ≡ closed → allow now b ≡ (true, b)
unfolding allow
allow-closed now b is_closed = ap (λ state. allow_in state now b) is_closed

wrap-closed :
    (started ended : ℕ) (tier : String) (d : Decision) (upstream : Response) (rl : RateLimit)
    → rl.breaker.state ≡ closed
    → let (response, after) = wrap started ended tier (some d) upstream rl in
      (response.status ≡ (if d.allowed then upstream.status else 429))
      × (after.breaker.state ≡ closed)
unfolding wrap apply_decision serve_upstream success
wrap-closed started ended tier d upstream rl is_closed =
    rw (allow-closed started rl.breaker is_closed) (ground arith)

module _ {κ ℓ} {N : Type κ} ⦃num : Number N⦄ {S : Type ℓ} ⦃sets : SortedSets S⦄
    (run : String → Args N → S → Option (List Value) × S) (runs : IsSliding run)
    (resolver : Resolver) (prefix : String) (t : Tenant) (some_limit : 0 < t.tier.limit)
    (some_window : 0 < t.tier.window) where
  -- While the breaker is closed, a request of this tenant is answered as the script decides, and
  -- leaves the breaker closed.
  pub handle_proxied-closed :
      (a : Arrival) (member : String) (g : Running S)
      → resolve resolver a.request ≡ t
      → a.member ≡ some member
      → g.rl.breaker.state ≡ closed
      → let key = redis_key (sliding_limiter prefix) t.id in
        let (reply, store) =
          Script.sliding_window key a.called
            (window_ms (quota t.tier))
            t.tier.limit
            member
            g.store in
        let (response, after) = handle_proxied run resolver (sliding_limiter prefix) a g in
        (response.status ≡ (if reply.allowed == 1 then a.upstream.status else 429))
        × (after.store ≡ store)
        × (after.rl.breaker.state ≡ closed)
  unfolding handle_proxied
  handle_proxied-closed a member g resolved fresh is_closed =
      rw
        (
          resolved,
          fresh,
          allow-sliding_window run runs prefix t.id (quota t.tier) some_limit some_window a.called
              member g.store,
        )
        (let (status, after_closed) =
            wrap-closed a.started a.ended t.tier.name _ a.upstream g.rl is_closed in
          (status, rw (allow-closed a.started g.rl.breaker is_closed) refl, after_closed))
