-- ===== src/Server/Pipeline/Outage.antt =====
-- The gateway of cmd/gateway/main.go while its limiter fails.
use ratelimit_gateway.Base.{
  ℕ, ◌+◌, ◌≤◌, ◌<◌, ◌≡◌, refl, ap, sym, ◌∙◌, String, Bool, true, false, Option, none, List, [], ◌∷◌,
  ◌++◌, map, length, if◌then◌else◌, Outcome, ok, err, is_ok, All, arith,
}
use mathlib.Core.Path.{ap₂, subst}
use ratelimit_gateway.Http.{Response}
use ratelimit_gateway.Number.{Number}
use ratelimit_gateway.Limiter.Redis as Redis
use ratelimit_gateway.Limiter.Redis.{Quota, RedisLimiter, Args, Value}
use ratelimit_gateway.Gateway.Breaker.{
  Breaker, closed, open_state, allow, admit_probe, success, failure, run_call,
}
use ratelimit_gateway.Gateway.Breaker.Trips.{failure_below, failure_last, open_refuses}
use ratelimit_gateway.Gateway.Middleware.{
  Decision, RateLimit, wrap, apply_failure_policy, apply_decision, serve_upstream,
}
use ratelimit_gateway.Gateway.Middleware.Outcomes.{IsUndecided}
use ratelimit_gateway.Gateway.Tenant.{Resolver, quota, resolve}
use ratelimit_gateway.Server.Pipeline.{Running, Arrival, verdict_of, handle_proxied, serve_all}
use ratelimit_gateway.Server.Pipeline.Steps.{allow-closed}

verdict_of-error :
    (outcome : Outcome Redis.Error Redis.Decision)
    → is_ok outcome ≡ false
    → verdict_of outcome ≡ none
verdict_of-error (err e) failed = refl
verdict_of-error (ok d) failed = ground arith

-- The status of a request that is not decided.
abbrev pub degraded_status : Bool → Response → ℕ
degraded_status fail_open upstream = if fail_open then upstream.status else 503

abbrev pub tripped : ℕ → Breaker → Breaker
tripped now b = record b { state = open_state; failures = b.threshold; probes = 0; opened_at = now }

-- What the breaker is after a request whose limiter fails.
unfoldable pub after_failure : ℕ → ℕ → Breaker → Breaker
after_failure started ended b =
    if (allow started b).0 then failure ended (allow started b).1 else (allow started b).1

wrap_undecided_state :
    (started ended : ℕ) (tier : String) (verdict : Option Decision) (upstream : Response)
    (rl : RateLimit)
    → IsUndecided started verdict rl
    → let (response, after) = wrap started ended tier verdict upstream rl in
      (response.status ≡ degraded_status rl.fail_open upstream)
      × (after.fail_open ≡ rl.fail_open)
      × (after.breaker ≡ after_failure started ended rl.breaker)
unfolding wrap apply_failure_policy serve_upstream after_failure
wrap_undecided_state started ended tier verdict upstream rl undecided = ground arith

after_failure-below :
    (started ended : ℕ) (b : Breaker)
    → b.state ≡ closed
    → b.failures + 1 < b.threshold
    → after_failure started ended b ≡ record b { failures = b.failures + 1 }
unfolding after_failure run_call
after_failure-below started ended b is_closed below =
    rw (allow-closed started b is_closed) (failure_below ended b is_closed below)

after_failure-last :
    (started ended : ℕ) (b : Breaker)
    → b.state ≡ closed
    → b.failures + 1 ≡ b.threshold
    → after_failure started ended b ≡ tripped ended b
unfolding after_failure run_call
after_failure-last started ended b is_closed last =
    rw (allow-closed started b is_closed) (failure_last ended b is_closed last)

after_failure-open :
    (started ended : ℕ) (b : Breaker)
    → b.state ≡ open_state
    → started < b.opened_at + b.cooldown
    → after_failure started ended b ≡ b
unfolding after_failure
after_failure-open started ended b is_open early = rw (open_refuses started b is_open early) refl

module _ {κ ℓ} {N : Type κ} ⦃num : Number N⦄ {S : Type ℓ}
    (run : String → Args N → S → Option (List Value) × S) (resolver : Resolver)
    (limiter : RedisLimiter) where
  -- The limiter's call for this request returns an error, whatever Redis keeps.
  abbrev pub Fails : Arrival → Type ℓ
  Fails a =
      let t = resolve resolver a.request in
      (store : S)
      → is_ok (Redis.allow run limiter a.called a.member t.id (quota t.tier) store).0 ≡ false

  handle_proxied-undecided :
      (a : Arrival) (g : Running S)
      → ((allow a.started g.rl.breaker).0 ≡ true → Fails a)
      → let (response, after) = handle_proxied run resolver limiter a g in
        (response.status ≡ degraded_status g.rl.fail_open a.upstream)
        × (after.rl.fail_open ≡ g.rl.fail_open)
        × (after.rl.breaker ≡ after_failure a.started a.ended g.rl.breaker)
        × ((allow a.started g.rl.breaker).0 ≡ false → after.store ≡ g.store)
  unfolding handle_proxied
  handle_proxied-undecided a g fails =
      let t = resolve resolver a.request in
      let asked = Redis.allow run limiter a.called a.member t.id (quota t.tier) g.store in
      let (status, kept, breaker) =
        wrap_undecided_state a.started a.ended t.tier.name (verdict_of asked.0) a.upstream g.rl
          (λ passed. verdict_of-error asked.0 (fails passed g.store)) in
      (status, kept, breaker, λ refused. rw refused refl)

  -- Requests before the cooldown of an open breaker is over.
  serve_all-open :
      (arrivals : List Arrival) (g : Running S)
      → g.rl.breaker.state ≡ open_state
      → All (λ a. a.started < g.rl.breaker.opened_at + g.rl.breaker.cooldown) arrivals
      → let (responses, after) = serve_all run resolver limiter arrivals g in
        (map (λ r. r.status) responses
          ≡ map (λ a. degraded_status g.rl.fail_open a.upstream) arrivals)
        × (after.store ≡ g.store)
        × (after.rl.breaker ≡ g.rl.breaker)
  unfolding serve_all
  serve_all-open [] g is_open early = (refl, refl, refl)
  serve_all-open (a ∷ rest) g is_open (soon, early) =
      let (response, after) = handle_proxied run resolver limiter a g in
      let refused : (allow a.started g.rl.breaker).0 ≡ false =
        ap (λ r. r.0) (open_refuses a.started g.rl.breaker is_open soon) in
      let (status, policy, breaker, stored) =
        handle_proxied-undecided a g (λ passed. ground arith) in
      let same : after.rl.breaker ≡ g.rl.breaker =
        breaker ∙ after_failure-open a.started a.ended g.rl.breaker is_open soon in
      let (statuses, store, final) =
        serve_all-open rest after (ap (λ b. b.state) same ∙ is_open)
          (subst (λ b. All (λ a. a.started < b.opened_at + b.cooldown) rest) (sym same) early) in
      (
        ap₂ ◌∷◌ status (statuses ∙ ap (λ o. map (λ a. degraded_status o a.upstream) rest) policy),
        store ∙ stored refused,
        final ∙ same,
      )

  -- When the limiter fails on as many requests in a row as the closed breaker lacks to its
  -- threshold, each of them, and each later request that starts before the cooldown has gone by
  -- since the last of these failures, gets the status of the upstream's response under the open
  -- policy, and 503 under the closed one. The later ones do not reach Redis, whatever it would
  -- answer, and the breaker stays open since that failure.
  pub serve_all-outage :
      (earlier : List Arrival) (last : Arrival) (later : List Arrival) (g : Running S)
      → g.rl.breaker.state ≡ closed
      → g.rl.breaker.failures + (length earlier + 1) ≡ g.rl.breaker.threshold
      → All Fails earlier
      → Fails last
      → All (λ a. a.started < last.ended + g.rl.breaker.cooldown) later
      → let (responses, after) = serve_all run resolver limiter (earlier ++ last ∷ later) g in
        (map (λ r. r.status) responses
          ≡ map (λ a. degraded_status g.rl.fail_open a.upstream) (earlier ++ last ∷ later))
        × (after.store ≡ (serve_all run resolver limiter (earlier ++ last ∷ []) g).1.store)
        × (after.rl.breaker ≡ tripped last.ended g.rl.breaker)
  unfolding serve_all
  serve_all-outage [] last later g is_closed full fail fails early =
      let (response, after) = handle_proxied run resolver limiter last g in
      let (status, policy, breaker, stored) = handle_proxied-undecided last g (λ passed. fails) in
      let trips : after.rl.breaker ≡ tripped last.ended g.rl.breaker =
        breaker ∙ after_failure-last last.started last.ended g.rl.breaker is_closed (omega arith) in
      let (statuses, store, final) =
        serve_all-open later after (ap (λ b. b.state) trips)
          (subst (λ b. All (λ a. a.started < b.opened_at + b.cooldown) later) (sym trips) early) in
      (
        ap₂ ◌∷◌ status (statuses ∙ ap (λ o. map (λ a. degraded_status o a.upstream) later) policy),
        store,
        final ∙ trips,
      )
  serve_all-outage (a ∷ earlier) last later g is_closed full (fails_first, fail) fails early =
      let (response, after) = handle_proxied run resolver limiter a g in
      let (status, policy, breaker, stored) =
        handle_proxied-undecided a g (λ passed. fails_first) in
      let counted : Breaker = record g.rl.breaker { failures = g.rl.breaker.failures + 1 } in
      let same : after.rl.breaker ≡ counted =
        breaker ∙ after_failure-below a.started a.ended g.rl.breaker is_closed (omega arith) in
      let (statuses, store, final) =
        serve_all-outage earlier last later after (ap (λ b. b.state) same ∙ is_closed)
          (subst (λ b. b.failures + (length earlier + 1) ≡ b.threshold) (sym same) (omega arith))
          fail fails
          (subst (λ b. All (λ a. a.started < last.ended + b.cooldown) later) (sym same) early) in
      (
        ap₂ ◌∷◌ status (
            statuses
            ∙ ap (λ o. map (λ a. degraded_status o a.upstream) (earlier ++ last ∷ later)) policy),
        store,
        final ∙ ap (tripped last.ended) same,
      )

  -- A request that comes when the cooldown of an open breaker that allows probes is over, and that
  -- the limiter decides, has the status that it decides, leaves the store as the limiter does, and
  -- closes the breaker with no failures counted.
  pub handle_proxied-recovered :
      (a : Arrival) (d : Redis.Decision) (g : Running S)
      → g.rl.breaker.state ≡ open_state
      → g.rl.breaker.opened_at + g.rl.breaker.cooldown ≤ a.started
      → 0 < g.rl.breaker.max_probes
      → let t = resolve resolver a.request in
        let (outcome, store) =
          Redis.allow run limiter a.called a.member t.id (quota t.tier) g.store in
        outcome ≡ ok d
        → let (response, after) = handle_proxied run resolver limiter a g in
          (response.status ≡ (if d.allowed then a.upstream.status else 429))
          × (after.store ≡ store)
          × (after.rl.breaker ≡ record g.rl.breaker { state = closed; failures = 0; probes = 0 })
  unfolding handle_proxied wrap apply_decision serve_upstream success allow admit_probe
  handle_proxied-recovered a d g is_open over some_probe decided = rw decided (ground arith)
