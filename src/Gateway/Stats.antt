-- ===== src/Gateway/Stats.antt =====
-- `handleStats` of internal/dashboard/dashboard.go. What Prometheus has gathered, the uptime and
-- the answer of Redis to a ping are arguments.
pub mod Latency
pub mod Texts
pub mod Sums
pub mod Sorted
use ratelimit_gateway.Base.{
  ℕ, String, Bool, true, false, Option, none, some, List, [], ◌∷◌, map, if◌then◌else◌, str_eq,
}
use ratelimit_gateway.Number.{Number}
use ratelimit_gateway.Dashboard.Stats.{Info, TierStat, LatencyStat, Stats}
use ratelimit_gateway.Gateway.Breaker.{
  Breaker, State, closed, open_state, half_open, reported_state,
}
use ratelimit_gateway.Gateway.Tenant.{Tier, Resolver, sort_tiers}
use ratelimit_gateway.Gateway.Stats.Latency.{Histogram, no_latency, aggregate_histogram}
use ratelimit_gateway.Gateway.Stats.Texts.{duration_text}

-- `dto.Metric` and `dto.MetricFamily`; the counter is zero for a metric that is none.
pub record Metric {ℓ} (N : Type ℓ) : Type ℓ where
  pub labels : List (String × String)
  pub counter : N
  pub histogram : Option (Histogram N)

pub record Family {ℓ} (N : Type ℓ) : Type ℓ where
  pub name : String
  pub metrics : List (Metric N)

-- `State.String`.
abbrev pub state_text : State → String
state_text closed = "closed"
state_text open_state = "open"
state_text half_open = "half_open"

-- A label of `labelMap`: the last one of the name, empty when there is none.
abbrev pub label_from : String → String → List (String × String) → String
label_from found name [] = found
label_from found name (p ∷ ps) = label_from (if str_eq p.0 name then p.1 else found) name ps

abbrev pub label {ℓ} : {N : Type ℓ} → String → Metric N → String
label name m = label_from "" name m.labels

-- The answer so far, and the tiers' counts, in the order in which the last loop reads them.
pub record Gathered {ℓ} (N : Type ℓ) : Type ℓ where
  pub totals : Stats N
  pub by_tier : List (TierStat N)

-- The slice that is appended to is nil as long as it is empty.
abbrev pub slice_of {κ} : {A : Type κ} → List A → Option (List A)
slice_of [] = none
slice_of (x ∷ xs) = some (x ∷ xs)

module _ {ℓ} {N : Type ℓ} ⦃num : Number N⦄ where
  open num use {nat, add}

  abbrev pub seed_tier : Tier → TierStat N
  seed_tier t = record {
    name = t.name;
    limit = nat t.limit;
    window = duration_text t.window;
    burst = nat t.burst;
    allowed = nat 0;
    throttled = nat 0;
  }

  abbrev pub count_total : String → N → Stats N → Stats N
  count_total decision value s =
      if str_eq decision "allowed"
      then record s { allowed = add s.allowed value }
      else if str_eq decision "throttled"
      then record s { throttled = add s.throttled value }
      else if str_eq decision "degraded"
      then record s { degraded = add s.degraded value }
      else s

  abbrev pub count_tier : String → String → N → TierStat N → TierStat N
  count_tier tier decision value t =
      if str_eq t.name tier
      then if str_eq decision "allowed"
        then record t { allowed = add t.allowed value }
        else if str_eq decision "throttled"
        then record t { throttled = add t.throttled value }
        else t
      else t

  abbrev pub count_decision_metric : Metric N → Gathered N → Gathered N
  count_decision_metric m g = record {
    totals = count_total (label "decision" m) m.counter g.totals;
    by_tier = map (count_tier (label "tier" m) (label "decision" m) m.counter) g.by_tier;
  }

  abbrev pub count_decision_metrics : List (Metric N) → Gathered N → Gathered N
  count_decision_metrics [] g = g
  count_decision_metrics (m ∷ ms) g = count_decision_metrics ms (count_decision_metric m g)

  abbrev pub count_error_metrics : List (Metric N) → Stats N → Stats N
  count_error_metrics [] s = s
  count_error_metrics (m ∷ ms) s =
      count_error_metrics ms (record s { errors = add s.errors m.counter })

  abbrev pub histograms : List (Metric N) → List (Histogram N)
  histograms [] = []
  histograms (m ∷ ms) = elim m.histogram [ none ↦ histograms ms | some h ↦ h ∷ histograms ms ]

  abbrev pub take_family : Family N → Gathered N → Gathered N
  take_family f g =
      let decided = count_decision_metrics f.metrics g in
      let failed = record g { totals = count_error_metrics f.metrics g.totals } in
      let limited = record g {
        totals = record (g.totals) { limiter = aggregate_histogram (histograms f.metrics) };
      } in
      let proxied = record g {
        totals = record (g.totals) { upstream = aggregate_histogram (histograms f.metrics) };
      } in
      if str_eq f.name "gateway_rate_limit_decisions_total"
      then decided
      else if str_eq f.name "gateway_limiter_errors_total"
      then failed
      else if str_eq f.name "gateway_limiter_duration_seconds"
      then limited
      else if str_eq f.name "gateway_upstream_duration_seconds"
      then proxied
      else g

  abbrev pub take_families : List (Family N) → Gathered N → Gathered N
  take_families [] g = g
  take_families (f ∷ fs) g = take_families fs (take_family f g)

  abbrev pub empty_stats : Info → N → Bool → String → Stats N
  empty_stats info uptime healthy breaker = record {
    info = info;
    uptime_seconds = uptime;
    redis_healthy = healthy;
    breaker_state = breaker;
    allowed = nat 0;
    throttled = nat 0;
    degraded = nat 0;
    errors = nat 0;
    tiers = none;
    limiter = no_latency;
    upstream = no_latency;
  }

  abbrev pub gathered_stats : Gathered N → Stats N
  gathered_stats g = record (g.totals) { tiers = slice_of g.by_tier }

  -- `none` is the status 500.
  unfoldable pub handle_stats :
      Info → N → Bool → ℕ → Breaker → Resolver → Option (List (Family N)) → Option (Stats N)
  handle_stats info uptime healthy now breaker r none = none
  handle_stats info uptime healthy now breaker r (some families) = some (
      gathered_stats (
        take_families families (record {
          totals = empty_stats info uptime healthy (state_text (reported_state now breaker));
          by_tier = map seed_tier (sort_tiers r.tiers);
        })))
