-- ===== src/Examples/Overlap.antt =====
-- Two requests that overlap at the gateway with a sliding window.
use ratelimit_gateway.Base.{◌≡◌, refl, String, true, Option, map, some, [], ◌∷◌, All, arith}
use ratelimit_gateway.Number.Fixed.{fixed_number}
use ratelimit_gateway.Limiter.Memory.Sets.{SetSlot, no_sets, memory_sets}
use ratelimit_gateway.Limiter.SlidingWindow as Script
use ratelimit_gateway.Limiter.Redis as Redis
use ratelimit_gateway.Gateway.Middleware.{Decision, apply_decision, serve_upstream}
use ratelimit_gateway.Limiter.Redis.Allowed.{sliding_limiter}
use ratelimit_gateway.Gateway.Breaker.{closed, new_breaker, allow}
use ratelimit_gateway.Gateway.Tenant.{resolve, api_key, client_ip}
use ratelimit_gateway.Server.Pipeline.{Arrival, Running, new_rate_limit}
use ratelimit_gateway.Server.Pipeline.Overlap.{
  Busy, waiting, finish, after_allow, arrived, answered_by_redis, reported, Reach, here, next,
  arrive, ask, report,
}
use ratelimit_gateway.Server.Pipeline.Overlap.Parts.{IsIn}
use ratelimit_gateway.Server.Pipeline.Overlap.Order.{sequence, outcomes, Reach-ordered}
use ratelimit_gateway.Examples.Server.{server, resolver, arrival}

abbrev started : Running (String → SetSlot)
started = record { rl = new_rate_limit true 5 5; store = no_sets }

abbrev first : Arrival
first = arrival 400 "1" "a"

abbrev second : Arrival
second = arrival 401 "2" "b"

abbrev idle : Busy (String → SetSlot)
idle = record { running = started; flights = []; asked = []; answers = [] }

abbrev both : Busy (String → SetSlot)
both =
    arrived server resolver (sliding_limiter "rl") second
      (arrived server resolver (sliding_limiter "rl") first idle)

abbrev first_verdict : Option Decision
first_verdict =
    some (record { allowed = true; limit = 2; remaining = 1; retry_after = 0; reset_after = 1000 })

-- Redis answers the first request, and the second one is still to be asked.
abbrev first_asked : Busy (String → SetSlot)
first_asked =
    answered_by_redis server resolver (sliding_limiter "rl") (waiting second ∷ []) first [] both

abbrev first_reported : Busy (String → SetSlot)
first_reported =
    reported server resolver (sliding_limiter "rl") (waiting second ∷ []) first first_verdict []
      first_asked

first_reported-Reach : Reach server resolver (sliding_limiter "rl") started first_reported
unfolding new_breaker allow after_allow answered_by_redis Redis.allow resolve api_key client_ip
    Script.sliding_window
first_reported-Reach =
    next
      (next (next (next here (arrive first refl)) (arrive second refl))
        (ask (waiting second ∷ []) first [] refl))
      (report (waiting second ∷ []) first first_verdict [] refl)

Reach-ordered_example :
    All
      (λ x. IsIn (x.0, x.1.status) (outcomes server resolver "rl" started (first ∷ [])))
      first_reported.answers
    × (first_reported.running.store ≡ (sequence server resolver "rl" started (first ∷ [])).1.store)
    × (first_reported.running.rl.breaker.state ≡ closed)
unfolding new_breaker answered_by_redis reported resolve api_key client_ip
Reach-ordered_example =
    Reach-ordered server (λ key now window limit member s. refl) resolver "rl" started refl
      first_reported first_reported-Reach ((refl, (omega arith, omega arith)), tt)

one_answer : map (λ x. x.1.status) first_reported.answers ≡ 200 ∷ []
unfolding reported finish apply_decision serve_upstream answered_by_redis
one_answer = refl
