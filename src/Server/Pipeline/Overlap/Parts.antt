-- ===== src/Server/Pipeline/Overlap/Parts.antt =====
-- The parts of Wrap, and a request after others.
use mathlib.Core.List.{append_assoc}
use ratelimit_gateway.Base.{
  ℕ, ◌≡◌, refl, ap, ◌∙◌, String, Bool, true, false, Option, none, some, List, [], ◌∷◌, ◌++◌,
  if◌then◌else◌, All, arith,
}
use ratelimit_gateway.Http.{Response}
use ratelimit_gateway.Number.{Number}
use ratelimit_gateway.Limiter.Redis.{RedisLimiter, Args, Value}
use ratelimit_gateway.Gateway.Breaker.{Breaker, closed, allow, success, reported_state}
use ratelimit_gateway.Gateway.Middleware.{
  Decision, RateLimit, wrap, wrap_admitted, apply_decision, serve_upstream,
}
use ratelimit_gateway.Gateway.Tenant.{Resolver, resolve}
use ratelimit_gateway.Gateway.Tenant.Loaded.{IsPositive}
use ratelimit_gateway.Server.Pipeline.{Running, Arrival, handle_proxied, serve_all}
use ratelimit_gateway.Server.Pipeline.Callers.{member_of}
use ratelimit_gateway.Server.Pipeline.Overlap.{after_allow, finish}

abbrev pub IsIn {ℓ} : {A : Type ℓ} → A → List A → Type ℓ
IsIn {A = A} x xs = (before : List A) × ((after : List A) × (xs ≡ before ++ x ∷ after))

pub IsIn-append {ℓ} : {A : Type ℓ} (x : A) (xs ys : List A) → IsIn x xs → IsIn x (xs ++ ys)
IsIn-append x xs ys (before, (after, e)) =
    (before, (after ++ ys, ap (λ l. l ++ ys) e ∙ append_assoc before (x ∷ after) ys))

pub All-parts {ℓ} :
    {A : Type ℓ} (P : A → Type 0) (xs ys : List A) → All P (xs ++ ys) → All P xs × All P ys
All-parts P [] ys h = (tt, h)
All-parts P (x ∷ xs) ys (h, hs) = let (first, last) = All-parts P xs ys hs in ((h, first), last)

-- A request that the limiter can decide.
abbrev pub IsDecidable : Resolver → Arrival → Type 0
IsDecidable resolver a =
    (a.member ≡ some (member_of a.member)) × IsPositive (resolve resolver a.request).tier

-- The requests with the statuses of their responses.
abbrev pub with_statuses : List Arrival → List Response → List (Arrival × ℕ)
with_statuses [] responses = []
with_statuses (a ∷ rest) [] = []
with_statuses (a ∷ rest) (response ∷ responses) =
    (a, response.status) ∷ with_statuses rest responses

wrap_admitted-again :
    (ended : ℕ) (tier : String) (verdict : Option Decision) (upstream : Response)
    (answer : Bool × Breaker) (rl : RateLimit)
    → wrap_admitted ended tier verdict upstream answer rl
      ≡ wrap_admitted ended tier verdict upstream
          (answer.0, answer.1)
          (record rl { breaker = answer.1 })
wrap_admitted-again ended tier verdict upstream (false, b) rl = refl
wrap_admitted-again ended tier none upstream (true, b) rl = refl
wrap_admitted-again ended tier (some d) upstream (true, b) rl = refl

-- Wrap is what it does at a request's arrival, and then the rest.
pub finish-after_allow :
    (resolver : Resolver) (a : Arrival) (verdict : Option Decision) (rl : RateLimit)
    → wrap a.started a.ended (resolve resolver a.request).tier.name verdict a.upstream rl
      ≡ finish resolver (allow a.started rl.breaker).0 a verdict (after_allow a rl)
unfolding wrap finish after_allow
finish-after_allow resolver a verdict rl =
    wrap_admitted-again a.ended (resolve resolver a.request).tier.name verdict a.upstream
      (allow a.started rl.breaker)
      (record rl { breaker_gauge = some (reported_state a.started rl.breaker) })

-- The report of a decision.
pub finish-closed :
    (resolver : Resolver) (a : Arrival) (d : Decision) (rl : RateLimit)
    → rl.breaker.state ≡ closed
    → let (response, after) = finish resolver true a (some d) rl in
      (response.status ≡ (if d.allowed then a.upstream.status else 429))
      × (after.breaker.state ≡ closed)
unfolding finish apply_decision serve_upstream success
finish-closed resolver a d rl is_closed = ground arith

module _ {κ ℓ} {N : Type κ} ⦃num : Number N⦄ {S : Type ℓ}
    (run : String → Args N → S → Option (List Value) × S) (resolver : Resolver)
    (limiter : RedisLimiter) where
  pub serve_all-snoc :
      (xs : List Arrival) (a : Arrival) (g : Running S)
      → let (responses, last) = serve_all run resolver limiter xs g in
        let (response, after) = handle_proxied run resolver limiter a last in
        let (all, final) = serve_all run resolver limiter (xs ++ a ∷ []) g in
        (with_statuses (xs ++ a ∷ []) all ≡ with_statuses xs responses ++ (a, response.status) ∷ [])
        × (final ≡ after)
  unfolding serve_all
  serve_all-snoc [] a g = (refl, refl)
  serve_all-snoc (x ∷ xs) a g =
      let (response, after) = handle_proxied run resolver limiter x g in
      let (statuses, final) = serve_all-snoc xs a after in
      (ap (λ l. (x, response.status) ∷ l) statuses, final)
