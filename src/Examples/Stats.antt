-- ===== src/Examples/Stats.antt =====
-- The stats of a gateway that has answered a few requests.
use ratelimit_gateway.Base.{
  ℕ, ◌*◌, ◌≡◌, refl, String, true, false, none, some, List, [], ◌∷◌, map, count, decimal, leb,
}
use ratelimit_gateway.Number.Fixed.{Fixed, pos, fixed_number, Fixed-IsOrdered}
use ratelimit_gateway.Dashboard.Stats.{Info, Stats}
use ratelimit_gateway.Gateway.Breaker.{new_breaker, reported_state}
use ratelimit_gateway.Gateway.Tenant.{Tier, Resolver, sort_tiers}
use ratelimit_gateway.Gateway.Stats.{
  Metric, Family, seed_tier, empty_stats, slice_of, handle_stats, state_text,
}
use ratelimit_gateway.Gateway.Tenant.Sorted.{IsInOrder}
use ratelimit_gateway.Gateway.Stats.Latency.{sort_floats, quantile}
use ratelimit_gateway.Gateway.Stats.Texts.{duration_text}
use ratelimit_gateway.Gateway.Stats.Sums.{metrics_of, totals_after, counted_tier, handle_stats-sums}
use ratelimit_gateway.Gateway.Stats.Sorted.{IsSorted, sort_floats-IsSorted}

abbrev number : ℕ → Fixed
number n = pos (n * 1000)

abbrev info : Info
info = record {
  algorithm = "token_bucket";
  upstream = "http://up";
  redis_addr = "redis:6379";
  fail_open = true;
}

abbrev free : Tier
free = record { name = "free"; limit = 100; window = 60_000_000_000; burst = 150 }

abbrev pro : Tier
pro = record { name = "pro"; limit = 1000; window = 60_000_000_000; burst = 1500 }

abbrev resolver : Resolver
resolver = record {
  keys = [];
  tiers = ("pro", pro) ∷ ("free", free) ∷ [];
  anon = free;
  trust_forwarded_for = false;
}

abbrev decision_metric : String → ℕ → Metric Fixed
decision_metric decision n = record {
  labels = ("tier", "free") ∷ ("decision", decision) ∷ [];
  counter = number n;
  histogram = none;
}

abbrev families : List (Family Fixed)
families =
    record {
      name = "gateway_rate_limit_decisions_total";
      metrics =
          decision_metric "allowed" 7
          ∷ decision_metric "throttled" 2
          ∷ decision_metric "allowed" 3
          ∷ [];
    }
    ∷ []

handle_stats-sums_example :
    let ms = metrics_of "gateway_rate_limit_decisions_total" families in
    let es = metrics_of "gateway_limiter_errors_total" families in
    (s : Stats Fixed) × (handle_stats info
        (number 9)
        true
        50
        (new_breaker 3 100 2)
        resolver
        (some families)
      ≡ some s)
    × ((s.allowed, s.throttled, s.degraded, s.errors)
        ≡ totals_after ms es (
            empty_stats info
              (number 9)
              true
              (state_text (reported_state 50 (new_breaker 3 100 2)))))
    × (s.tiers ≡ slice_of (map (counted_tier ms) (map seed_tier (sort_tiers resolver.tiers))))
    × IsInOrder (sort_tiers resolver.tiers)
    × (count (λ t. leb t.limit 100) (sort_tiers resolver.tiers) ≡ 1)
handle_stats-sums_example =
    handle_stats-sums info (number 9) true 50 (new_breaker 3 100 2) resolver families
      (λ t. leb t.limit 100)

summed :
    totals_after
      (metrics_of "gateway_rate_limit_decisions_total" families)
      []
      (empty_stats info (number 9) true "closed")
    ≡ (number 10, number 2, number 0, number 0)
summed = refl

abbrev bounds : List Fixed
bounds = number 3 ∷ number 1 ∷ number 2 ∷ number 1 ∷ []

sort_floats-IsSorted_run :
    IsSorted (sort_floats bounds)
    × (count (fixed_number.eq (number 1)) (sort_floats bounds)
        ≡ count (fixed_number.eq (number 1)) bounds)
sort_floats-IsSorted_run = sort_floats-IsSorted Fixed-IsOrdered bounds (fixed_number.eq (number 1))

sorted : sort_floats bounds ≡ number 1 ∷ number 1 ∷ number 2 ∷ number 3 ∷ []
unfolding sort_floats
sorted = refl

tiers_sorted : sort_tiers resolver.tiers ≡ free ∷ pro ∷ []
tiers_sorted = refl

-- Half of ten samples, of which four are below one and all below two.
halfway :
    quantile
      (number 1 ∷ number 2 ∷ [])
      ((number 1, 4) ∷ (number 2, 10) ∷ [])
      10
      (fixed_number.div (number 1) (number 2))
    ≡ pos 1166
unfolding quantile
halfway = refl

durations :
    (duration_text 60_000_000_000 ≡ "1m0s")
    × (duration_text 3_661_500_000_000 ≡ "1h1m1.5s")
    × (duration_text 1_500_000 ≡ "1.5ms")
    × (duration_text 250 ≡ "250ns")
unfolding duration_text decimal
durations = (refl, refl, refl, refl)
