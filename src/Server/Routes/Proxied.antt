-- ===== src/Server/Routes/Proxied.antt =====
-- The proxied requests among all that come to the listener of cmd/gateway/main.go.
use ratelimit_gateway.Base.{◌≡◌, refl, ap, String, Option, List, [], ◌∷◌}
use ratelimit_gateway.Http.{Response}
use ratelimit_gateway.Number.{Number}
use ratelimit_gateway.Limiter.Redis.{RedisLimiter, Args, Value}
use ratelimit_gateway.Gateway.Tenant.{Resolver}
use ratelimit_gateway.Server.Config.{Config}
use ratelimit_gateway.Server.Pipeline.{Arrival, Running, handle_proxied, serve_all}
use ratelimit_gateway.Server.Routes.{
  Route, health, ready, settings, not_allowed, not_found, proxied, redirect, asset, route, Answer,
  forwarded, Visit, serve_route, serve, serve_visits,
}

abbrev pub with_proxied : Route → Arrival → List Arrival → List Arrival
with_proxied proxied a rest = a ∷ rest
with_proxied _ a rest = rest

-- The requests for the upstream.
abbrev pub proxied_arrivals : String → List Visit → List Arrival
proxied_arrivals console_path [] = []
proxied_arrivals console_path (v ∷ rest) =
    with_proxied (route console_path v.method v.path) v.arrival (proxied_arrivals console_path rest)

-- Their answers.
abbrev pub forwarded_of : List Answer → List Response
forwarded_of [] = []
forwarded_of (forwarded response ∷ rest) = response ∷ forwarded_of rest
forwarded_of (_ ∷ rest) = forwarded_of rest

module _ {κ ℓ} {N : Type κ} ⦃num : Number N⦄ {S : Type ℓ}
    (run : String → Args N → S → Option (List Value) × S) (cfg : Config) (resolver : Resolver)
    (limiter : RedisLimiter) where
  -- These visits do to the gateway what these requests alone would do.
  abbrev AreServed : (Running S → List Answer × Running S) → List Arrival → Type ℓ
  AreServed visits arrivals =
      (g : Running S)
      → (forwarded_of (visits g).0 ≡ (serve_all run resolver limiter arrivals g).0)
        × ((visits g).1 ≡ (serve_all run resolver limiter arrivals g).1)

  serve_route-AreServed :
      (r : Route) (v : Visit) (rest : Running S → List Answer × Running S) (arrivals : List Arrival)
      → AreServed rest arrivals
      → AreServed
          (λ g.
            let (answer, after) = serve_route run cfg resolver limiter r v g in
            let (answers, last) = rest after in (answer ∷ answers, last))
          (with_proxied r v.arrival arrivals)
  unfolding serve_all
  serve_route-AreServed health v rest arrivals h g = h g
  serve_route-AreServed ready v rest arrivals h g = h g
  serve_route-AreServed settings v rest arrivals h g = h g
  serve_route-AreServed not_allowed v rest arrivals h g = h g
  serve_route-AreServed not_found v rest arrivals h g = h g
  serve_route-AreServed (redirect path) v rest arrivals h g = h g
  serve_route-AreServed (asset path) v rest arrivals h g = h g
  serve_route-AreServed proxied v rest arrivals h g =
      let (response, after) = handle_proxied run resolver limiter v.arrival g in
      let (answers, last) = h after in (ap (λ rs. response ∷ rs) answers, last)

  -- Whatever is asked of the listener, in whatever order: the requests for the upstream are answered,
  -- and the breaker, the counters and the store are left, as if they had come alone.
  pub serve_visits-serve_all :
      (visits : List Visit)
      → AreServed
          (serve_visits run cfg resolver limiter visits)
          (proxied_arrivals cfg.console_path visits)
  unfolding serve_visits serve serve_all
  serve_visits-serve_all [] g = (refl, refl)
  serve_visits-serve_all (v ∷ rest) g =
      serve_route-AreServed (route cfg.console_path v.method v.path) v
        (serve_visits run cfg resolver limiter rest) (proxied_arrivals cfg.console_path rest)
        (serve_visits-serve_all rest) g
