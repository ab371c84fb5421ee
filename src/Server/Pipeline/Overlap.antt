-- ===== src/Server/Pipeline/Overlap.antt =====
-- Requests that overlap at the gateway of cmd/gateway/main.go: Wrap of
-- internal/middleware/ratelimit.go cut where it waits. Allow of the breaker is one step under its
-- mutex, the limiter's script is one in Redis, and so is the report of its outcome to the breaker,
-- with what follows it; other requests run between.
pub mod Parts
pub mod Order
use ratelimit_gateway.Base.{◌≡◌, String, Bool, true, false, Option, none, some, List, [], ◌∷◌, ◌++◌}
use ratelimit_gateway.Http.{Response}
use ratelimit_gateway.Number.{Number}
use ratelimit_gateway.Limiter.Redis as Redis
use ratelimit_gateway.Limiter.Redis.{RedisLimiter, Args, Value}
use ratelimit_gateway.Gateway.Breaker as Breaker
use ratelimit_gateway.Gateway.Breaker.{reported_state}
use ratelimit_gateway.Gateway.Middleware.{Decision, RateLimit, wrap_admitted}
use ratelimit_gateway.Gateway.Tenant.{Resolver, quota, resolve}
use ratelimit_gateway.Server.Pipeline.{Running, Arrival, verdict_of}

-- A request that the breaker has let through: it waits for Redis, or has the limiter's outcome.
pub data Flight : Type 0 where
  waiting : Arrival → Flight
  decided : Arrival → Option Decision → Flight

-- What is shared, the requests under way, those that Redis has answered, in that order, and those
-- that the gateway has.
pub record Busy {ℓ} (S : Type ℓ) : Type ℓ where
  pub running : Running S
  pub flights : List Flight
  pub asked : List Arrival
  pub answers : List (Arrival × Response)

-- The middleware after it has recorded the breaker's state and asked it.
unfoldable pub after_allow : Arrival → RateLimit → RateLimit
after_allow a rl = record rl {
  breaker_gauge = some (reported_state a.started rl.breaker);
  breaker = (Breaker.allow a.started rl.breaker).1;
}

-- The rest of Wrap, by the breaker's answer and the limiter's.
unfoldable pub finish :
    Resolver → Bool → Arrival → Option Decision → RateLimit → Response × RateLimit
finish resolver passed a verdict rl =
    wrap_admitted a.ended (resolve resolver a.request).tier.name verdict a.upstream
      (passed, rl.breaker) rl

module _ {κ ℓ} {N : Type κ} ⦃num : Number N⦄ {S : Type ℓ}
    (run : String → Args N → S → Option (List Value) × S) (resolver : Resolver)
    (limiter : RedisLimiter) where
  abbrev pub arrived : Arrival → Busy S → Busy S
  arrived a b = record b {
    running = record b.running { rl = after_allow a b.running.rl };
    flights = waiting a ∷ b.flights;
  }

  -- The breaker stops it, and the gateway answers at once.
  unfoldable pub stopped : Arrival → Busy S → Busy S
  stopped a b =
      let (response, rl) = finish resolver false a none (after_allow a b.running.rl) in
      record b { running = record b.running { rl = rl }; answers = (a, response) ∷ b.answers }

  unfoldable pub answered_by_redis : List Flight → Arrival → List Flight → Busy S → Busy S
  answered_by_redis before a after b =
      let t = resolve resolver a.request in
      let (outcome, store) =
        Redis.allow run limiter a.called a.member t.id (quota t.tier) b.running.store in
      record b {
        running = record b.running { store = store };
        flights = before ++ decided a (verdict_of outcome) ∷ after;
        asked = b.asked ++ a ∷ [];
      }

  unfoldable pub reported : List Flight → Arrival → Option Decision → List Flight → Busy S → Busy S
  reported before a verdict after b =
      let (response, rl) = finish resolver true a verdict b.running.rl in
      record b {
        running = record b.running { rl = rl };
        flights = before ++ after;
        answers = (a, response) ∷ b.answers;
      }

  pub data Step : Busy S → Busy S → Type ℓ where
    arrive :
        {b : Busy S} (a : Arrival)
        → (Breaker.allow a.started b.running.rl.breaker).0 ≡ true
        → Step b (arrived a b)
    stop :
        {b : Busy S} (a : Arrival)
        → (Breaker.allow a.started b.running.rl.breaker).0 ≡ false
        → Step b (stopped a b)
    ask :
        {b : Busy S} (before : List Flight) (a : Arrival) (after : List Flight)
        → b.flights ≡ before ++ waiting a ∷ after
        → Step b (answered_by_redis before a after b)
    report :
        {b : Busy S} (before : List Flight) (a : Arrival) (verdict : Option Decision)
        (after : List Flight)
        → b.flights ≡ before ++ decided a verdict ∷ after
        → Step b (reported before a verdict after b)

  -- The states that a gateway without requests under way can come to.
  pub data Reach (start : Running S) : Busy S → Type ℓ where
    here : Reach start (record { running = start; flights = []; asked = []; answers = [] })
    next : {b c : Busy S} → Reach start b → Step b c → Reach start c
