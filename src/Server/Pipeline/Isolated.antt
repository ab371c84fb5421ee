-- ===== src/Server/Pipeline/Isolated.antt =====
-- One tenant of the gateway of cmd/gateway/main.go among others, with the sliding window.
use mathlib.Core.Path.{ap₂, subst}
use text.Mathlib.TextLemmas.{append_cancel_left, append_cancel_right}
use ratelimit_gateway.Base.{
  ℕ, ◌*◌, ap, ◌≤◌, ◌<◌, ◌≡◌, ◌≢◌, refl, sym, ◌∙◌, String, Bool, true, false, Option, some, List, [],
  ◌∷◌, map, str_eq, ne_of_str_eq, count, All,
}
use ratelimit_gateway.Http.{Response}
use ratelimit_gateway.Number.{Number}
use ratelimit_gateway.Limiter.Store.{SortedSets, IsSortedSets, IsLocal}
use ratelimit_gateway.Limiter.SlidingWindow.Log.{
  extend, IsAscending, decisions, is_within, admitted,
}
use ratelimit_gateway.Limiter.SlidingWindow.Invariant.{IsLogged}
use ratelimit_gateway.Limiter.SlidingWindow.Refinement.{
  IsFresh, use_member, absent-IsLogged, sliding_window-Step,
}
use ratelimit_gateway.Limiter.SlidingWindow.Isolation.{IsLogged-other, decisions-bound}
use ratelimit_gateway.Limiter.Redis.{RedisLimiter, Args, Value, name_of, redis_key, window_ms}
use ratelimit_gateway.Limiter.Redis.Allowed.{
  IsSliding, sliding_limiter, window_ms-whole, window_positive,
}
use ratelimit_gateway.Gateway.Breaker.{closed}
use ratelimit_gateway.Gateway.Tenant.{Tenant, Resolver, quota, resolve}
use ratelimit_gateway.Gateway.Tenant.Loaded.{IsPositive}
use ratelimit_gateway.Server.Pipeline.{Running, Arrival, handle_proxied, serve_all}
use ratelimit_gateway.Server.Pipeline.Steps.{handle_proxied-closed}
use ratelimit_gateway.Server.Pipeline.Callers.{member_of, calls_of, has_passed, has_passed-status}

redis_key-differs : (l : RedisLimiter) (a b : String) → a ≢ b → redis_key l a ≢ redis_key l b
redis_key-differs l a b different same = different (
    append_cancel_right a b "" (
      append_cancel_left ":" _ _ (
        append_cancel_left (name_of l.alg) _ _
          (append_cancel_left ":" _ _ (append_cancel_left l.prefix _ _ same)))))

abbrev pub keep_if {ℓ} : {A : Type ℓ} → Bool → A → List A → List A
keep_if true a rest = a ∷ rest
keep_if false a rest = rest

-- A request of the tenant with this name.
abbrev pub is_own : Resolver → String → Arrival → Bool
is_own resolver id a = str_eq (resolve resolver a.request).id id

abbrev pub own_arrivals : Resolver → String → List Arrival → List Arrival
own_arrivals resolver id [] = []
own_arrivals resolver id (a ∷ rest) =
    keep_if (is_own resolver id a) a (own_arrivals resolver id rest)

-- Their responses among those of all.
abbrev pub own_responses : Resolver → String → List Arrival → List Response → List Response
own_responses resolver id [] responses = []
own_responses resolver id (a ∷ rest) [] = []
own_responses resolver id (a ∷ rest) (response ∷ responses) =
    keep_if (is_own resolver id a) response (own_responses resolver id rest responses)

-- A request that the limiter can decide, and that is of the tenant if it has the tenant's name; then
-- the upstream does not throttle it by itself.
pub record IsServed (resolver : Resolver) (t : Tenant) (a : Arrival) : Type 0 where
  pub with_member : a.member ≡ some (member_of a.member)
  pub sized : IsPositive (resolve resolver a.request).tier
  pub own :
      is_own resolver t.id a ≡ true → (resolve resolver a.request ≡ t) × (a.upstream.status ≢ 429)

abbrev times_of : List Arrival → List ℕ
times_of arrivals = map (λ c. c.0) (calls_of arrivals)

module _ {κ ℓ} {N : Type κ} ⦃num : Number N⦄ {S : Type ℓ} ⦃sets : SortedSets S⦄
    (run : String → Args N → S → Option (List Value) × S) (runs : IsSliding run)
    (resolver : Resolver) (prefix : String) (t : Tenant) (some_limit : 0 < t.tier.limit)
    (some_window : 0 < t.tier.window) (laws : IsSortedSets S) (separate : IsLocal S laws) where
  abbrev key_of : String
  key_of = redis_key (sliding_limiter prefix) t.id

  abbrev window_of : ℕ
  window_of = window_ms (quota t.tier)

  -- From any state in which the breaker is closed and the tenant's set agrees with a log, the
  -- tenant's requests pass as the log tells.
  abbrev Passes : List Arrival → Type ℓ
  Passes arrivals =
      (g : Running S) (log : List ℕ) (used : String → Bool) (last : ℕ)
      → IsLogged laws key_of window_of g.store log used last
      → g.rl.breaker.state ≡ closed
      → IsAscending last (times_of (own_arrivals resolver t.id arrivals))
      → IsFresh used (calls_of (own_arrivals resolver t.id arrivals))
      → map has_passed (
          own_responses resolver t.id arrivals
            (serve_all run resolver (sliding_limiter prefix) arrivals g).0)
        ≡ decisions window_of t.tier.limit log (times_of (own_arrivals resolver t.id arrivals))

  Passes-cons :
      (own : Bool) (a : Arrival) (rest : List Arrival)
      → is_own resolver t.id a ≡ own
      → IsServed resolver t a
      → Passes rest
      → (g : Running S) (log : List ℕ) (used : String → Bool) (last : ℕ)
      → IsLogged laws key_of window_of g.store log used last
      → g.rl.breaker.state ≡ closed
      → let those = keep_if own a (own_arrivals resolver t.id rest) in
        let (response, after) = handle_proxied run resolver (sliding_limiter prefix) a g in
        IsAscending last (times_of those)
        → IsFresh used (calls_of those)
        → map has_passed (
            keep_if own response (
              own_responses resolver t.id rest
                (serve_all run resolver (sliding_limiter prefix) rest after).0))
          ≡ decisions window_of t.tier.limit log (times_of those)
  Passes-cons true a rest own served ih g log used last logged is_closed (later, ascending)
        (new, fresh) =
      let member = member_of a.member in
      let (resolved, serving) = served.own own in
      let (response, after) = handle_proxied run resolver (sliding_limiter prefix) a g in
      let (status, stored, still_closed) =
        handle_proxied-closed run runs resolver prefix t some_limit some_window a member g resolved
          served.with_member is_closed in
      let (decided, kept) =
        sliding_window-Step laws key_of window_of g.store log used last a.called member logged later
          new t.tier.limit some_limit in
      ap₂ ◌∷◌ (has_passed-status response _ a.upstream.status serving status ∙ decided) (
        ih after (extend window_of t.tier.limit log a.called) (use_member used member) a.called
          (subst
            (λ s.
              IsLogged laws key_of window_of s (extend window_of t.tier.limit log a.called)
                (use_member used member) a.called)
            (sym stored) kept)
          still_closed ascending fresh)
  Passes-cons false a rest other served ih g log used last logged is_closed ascending fresh =
      let u = resolve resolver a.request in
      let member = member_of a.member in
      let (response, after) = handle_proxied run resolver (sliding_limiter prefix) a g in
      let (status, stored, still_closed) =
        handle_proxied-closed run runs resolver prefix u served.sized.0 served.sized.1 a member g
          refl served.with_member is_closed in
      let different =
        redis_key-differs (sliding_limiter prefix) t.id u.id
          (λ same. ne_of_str_eq u.id t.id other (sym same)) in
      ih after log used last
        (subst (λ s. IsLogged laws key_of window_of s log used last) (sym stored)
          (IsLogged-other laws separate (redis_key (sliding_limiter prefix) u.id) key_of different
            window_of g.store log used last a.called (window_ms (quota u.tier)) u.tier.limit member
            logged))
        still_closed ascending fresh

  arrivals-Passes : (arrivals : List Arrival) → All (IsServed resolver t) arrivals → Passes arrivals
  unfolding serve_all
  arrivals-Passes [] served = λ g log used last logged is_closed ascending fresh. refl
  arrivals-Passes (a ∷ rest) (here, served) =
      Passes-cons (is_own resolver t.id a) a rest refl here (arrivals-Passes rest served)

module _ {κ ℓ} {N : Type κ} ⦃num : Number N⦄ {S : Type ℓ} ⦃sets : SortedSets S⦄
    (run : String → Args N → S → Option (List Value) × S) (runs : IsSliding run)
    (resolver : Resolver) (prefix : String) (t : Tenant) (some_limit : 0 < t.tier.limit) (ms : ℕ)
    (some_ms : 0 < ms) (whole : t.tier.window ≡ ms * 1_000_000) (laws : IsSortedSets S)
    (separate : IsLocal S laws) where
  -- For a tenant whose tier has a limit and a window of whole milliseconds, at least one, on a store
  -- that behaves as Redis is documented to and does not have the tenant's key, with the sliding
  -- window, the breaker closed at first, and requests that the limiter can decide: whatever requests
  -- of other tenants come between, with whatever windows, the gateway throttles exactly those of the
  -- tenant that find as many passed ones of its own as its limit in the window that ends with them,
  -- and in any stretch of time as long as the window no more of them pass than the limit. The
  -- tenant's limiter times do not fall, its members are new, no other tenant has its name, and the
  -- upstream does not answer it with 429 by itself.
  pub serve_all-isolated :
      (arrivals : List Arrival) (g : Running S) (start : ℕ)
      → All (IsServed resolver t) arrivals
      → g.rl.breaker.state ≡ closed
      → ((time : ℕ) → laws.entries (redis_key (sliding_limiter prefix) t.id) time g.store ≡ [])
      → IsAscending 0 (times_of (own_arrivals resolver t.id arrivals))
      → IsFresh (λ member. false) (calls_of (own_arrivals resolver t.id arrivals))
      → let times = times_of (own_arrivals resolver t.id arrivals) in
        let passed = map has_passed (
          own_responses resolver t.id arrivals
            (serve_all run resolver (sliding_limiter prefix) arrivals g).0) in
        (passed ≡ decisions ms t.tier.limit [] times)
        × (count (is_within ms start) (admitted times passed) ≤ t.tier.limit)
  serve_all-isolated arrivals g start served is_closed absent ascending fresh =
      let times = times_of (own_arrivals resolver t.id arrivals) in
      let key = redis_key (sliding_limiter prefix) t.id in
      let passes =
        arrivals-Passes run runs resolver prefix t some_limit
          (window_positive ms t.tier.window some_ms whole) laws separate arrivals served g []
          (λ member. false) 0
          (absent-IsLogged laws key (window_ms (quota t.tier)) t.tier.limit some_limit g.store
            absent)
          is_closed ascending fresh
        ∙ ap (λ w. decisions w t.tier.limit [] times) (window_ms-whole ms (quota t.tier) whole) in
      rw passes (refl, decisions-bound ms t.tier.limit start times)
