-- ===== src/Server/Startup/Limited.antt =====
-- How many of one caller's requests pass a gateway that cmd/gateway/main.go has started.
use mathlib.Core.Path.{subst}
use ratelimit_gateway.Base.{
  ℕ, ◌*◌, ◌≤◌, ◌≡◌, ap, sym, ◌∙◌, String, Bool, true, false, Option, some, List, [], map, count, ok,
  All, All-imp, Holds,
}
use ratelimit_gateway.Number.{Number}
use ratelimit_gateway.Limiter.Store.{SortedSets, IsSortedSets, IsLocal}
use ratelimit_gateway.Limiter.SlidingWindow.Log.{IsAscending, decisions, is_within, admitted}
use ratelimit_gateway.Limiter.SlidingWindow.Refinement.{IsFresh}
use ratelimit_gateway.Limiter.Redis.{ℤ, sliding_window, Args, Value, redis_key}
use ratelimit_gateway.Limiter.Redis.Allowed.{IsSliding, sliding_limiter}
use ratelimit_gateway.Gateway.Tenant as Tenant
use ratelimit_gateway.Gateway.Tenant.{Resolver, FileFormat, quota}
use ratelimit_gateway.Gateway.Tenant.Address.{anonymous_at}
use ratelimit_gateway.Server.Config.{Url, Config, Environment, env, parse_bool}
use ratelimit_gateway.Server.Pipeline.{Arrival, magnitude, serve_all}
use ratelimit_gateway.Server.Pipeline.Callers.{
  member_of, calls_of, has_passed, IsAnonymous, IsAnonymous-IsRequest, new_breaker-closed,
}
use ratelimit_gateway.Server.Pipeline.Isolated.{
  is_own, own_arrivals, own_responses, IsServed, serve_all-isolated,
}
use ratelimit_gateway.Gateway.Tenant.Loaded.{resolve-load, anon-IsPositive, load-trust}
use ratelimit_gateway.Server.Routes.{Visit, serve_visits}
use ratelimit_gateway.Server.Routes.Proxied.{proxied_arrivals, forwarded_of, serve_visits-serve_all}
use ratelimit_gateway.Server.Startup.{Gateway, new_limiter, gateway_of, start, listen}
use ratelimit_gateway.Server.Startup.Started.{
  IsStarted, start-IsStarted, untrusted, some_of_product, sliding,
}

-- A request that the limiter can decide, and that is without a key and from this host if its tenant
-- has the name of the host's anonymous one; then the upstream does not throttle it by itself.
pub record IsVisitor (host : String) (resolver : Resolver) (a : Arrival) : Type 0 where
  pub with_member : a.member ≡ some (member_of a.member)
  pub own : is_own resolver (anonymous_at resolver host).id a ≡ true → IsAnonymous host a

pub IsVisitor-IsServed :
    (host : String) (f : FileFormat) (resolver : Resolver) (a : Arrival)
    → Tenant.load false (some f) ≡ ok resolver
    → IsVisitor host resolver a
    → IsServed resolver (anonymous_at resolver host) a
IsVisitor-IsServed host f resolver a loaded h = record {
  with_member = h.with_member;
  sized = (resolve-load false f resolver a.request loaded).1;
  own = λ named.
      let request =
        IsAnonymous-IsRequest resolver host a (load-trust false f resolver loaded) (h.own named) in
      (request.resolved, request.serving);
}

module _ {κ ℓ} {N : Type κ} ⦃num : Number N⦄ {S : Type ℓ} ⦃sets : SortedSets S⦄
    (run : String → Args N → S → Option (List Value) × S) (runs : IsSliding run) (host : String)
    (laws : IsSortedSets S) (separate : IsLocal S laws) (visits : List Visit) (start_of : ℕ)
    (store : S) where
  -- The host's requests for the upstream, by the limiter's times and members.
  abbrev pub own_calls : Gateway S → List (ℕ × String)
  own_calls gateway = calls_of (
      own_arrivals gateway.resolver (anonymous_at gateway.resolver host).id
        (proxied_arrivals gateway.cfg.console_path visits))

  -- The visits to a gateway whose store does not have the host's key: those of the host for the
  -- upstream come at times that do not fall and with new members.
  pub record AreVisitors (gateway : Gateway S) : Type 0 where
    pub visitors :
        All (IsVisitor host gateway.resolver) (proxied_arrivals gateway.cfg.console_path visits)
    pub absent :
        (time : ℕ)
        → laws.entries
            (redis_key (sliding_limiter "rl") (anonymous_at gateway.resolver host).id)
            time
            store
          ≡ []
    pub ascending : IsAscending 0 (map (λ c. c.0) (own_calls gateway))
    pub fresh : IsFresh (λ member. false) (own_calls gateway)

  -- Of the host's requests those pass that the log of the limiter tells for their times alone, and
  -- no more of them than the anonymous tier's limit in any stretch of this many milliseconds.
  abbrev pub IsLimited : ℕ → Gateway S → Type 0
  IsLimited ms gateway =
      let anon = gateway.resolver.anon in
      let times = map (λ c. c.0) (own_calls gateway) in
      let passed = map has_passed (
        own_responses gateway.resolver (anonymous_at gateway.resolver host).id
          (proxied_arrivals gateway.cfg.console_path visits)
          (forwarded_of (listen run gateway visits).0)) in
      (passed ≡ decisions ms anon.limit [] times)
      × (count (is_within ms start_of) (admitted times passed) ≤ anon.limit)

  gateway_of-IsLimited :
      (cfg : Config) (resolver : Resolver) (f : FileFormat) (ms : ℕ)
      → resolver.anon.window ≡ ms * 1_000_000
      → cfg.algorithm ≡ sliding_window
      → Tenant.load false (some f) ≡ ok resolver
      → AreVisitors (gateway_of cfg resolver store)
      → IsLimited ms (gateway_of cfg resolver store)
  unfolding gateway_of
  gateway_of-IsLimited cfg resolver f ms whole window loaded h =
      let arrivals = proxied_arrivals cfg.console_path visits in
      let running = (gateway_of cfg resolver store).running in
      let positive = anon-IsPositive false f resolver loaded in
      let limiter : new_limiter cfg ≡ sliding_limiter "rl" =
        ap (λ a. record { alg = a; prefix = "rl" }) window in
      let alone : forwarded_of (serve_visits run cfg resolver (new_limiter cfg) visits running).0
          ≡ (serve_all run resolver (sliding_limiter "rl") arrivals running).0 =
        (serve_visits-serve_all run cfg resolver (new_limiter cfg) visits running).0
        ∙ ap (λ l. (serve_all run resolver l arrivals running).0) limiter in
      rw alone (
        serve_all-isolated run runs resolver "rl" (anonymous_at resolver host) positive.0 ms
          (some_of_product ms resolver.anon.window whole positive.1) whole laws separate arrivals
          running start_of
          (All-imp (IsVisitor host resolver) (IsServed resolver (anonymous_at resolver host))
            arrivals (λ a. IsVisitor-IsServed host f resolver a loaded) h.visitors)
          (new_breaker-closed (magnitude cfg.breaker_thresh) (magnitude cfg.breaker_cooldown))
          h.absent h.ascending h.fresh)

  module _ (parse_url : String → Option Url) (parse_duration : String → Option ℤ)
      (file : String → Option FileFormat) (takes_pattern : String → Bool) where
    -- A gateway that has started with the sliding window, with X-Forwarded-For not trusted, as the
    -- variable for it is not set or reads as false, and with an anonymous tier whose window is of
    -- whole milliseconds, on a store
    -- that behaves as Redis is documented to and does not have the key of a host: whatever health
    -- checks, requests to the console, and requests of other tenants and hosts come between, of the
    -- host's requests for the upstream without an API key, from any of its ports and with any other
    -- headers, the gateway throttles exactly those that find as many passed ones of the host as the
    -- limit of the anonymous tier in the window that ends with them; and in any stretch of time as
    -- long as the window no more of them pass than the limit. The limiter gets a member for each
    -- request, for the host's new ones at times that do not fall, only the host's anonymous tenant
    -- has its name, and the upstream does not answer it with 429 by itself.
    pub start-IsLimited :
        (e : Environment) (gateway : Gateway S) (ms : ℕ)
        → start parse_url parse_duration file takes_pattern e store ≡ ok gateway
        → e "GATEWAY_ALGORITHM" ≡ some "sliding_window"
        → parse_bool (env e "GATEWAY_TRUST_FORWARDED_FOR" "false") ≡ some false
        → gateway.resolver.anon.window ≡ ms * 1_000_000
        → AreVisitors gateway
        → IsLimited ms gateway
    start-IsLimited e gateway ms started named refused whole callers =
        let h : IsStarted parse_url parse_duration file takes_pattern S e store gateway =
          subst (Holds (IsStarted parse_url parse_duration file takes_pattern S e store)) started
            (start-IsStarted parse_url parse_duration file takes_pattern e store) in
        let trust = untrusted e gateway.cfg.trust_xff refused h.configured.trust in
        let (f, loaded) = h.loaded in
        subst (IsLimited ms) (sym h.same) (
          gateway_of-IsLimited gateway.cfg gateway.resolver f ms whole
            (sliding e gateway.cfg.algorithm named h.configured.algorithm)
            (subst (λ t. Tenant.load t (some f) ≡ ok gateway.resolver) trust loaded)
            (subst AreVisitors h.same callers))
