-- ===== src/Gateway/Stats/Sums.antt =====
-- The counts of handleStats in internal/dashboard/dashboard.go as sums over what was gathered.
use mathlib.Core.Path.{ap₂}
use text.Mathlib.TextEquality.{eq_iff}
use ratelimit_gateway.Base.{
  ℕ, ◌≡◌, refl, ap, sym, ◌∙◌, String, Bool, true, false, ◌&&◌, some, List, [], ◌∷◌, ◌++◌, map,
  filter, count, if◌then◌else◌, str_eq, Bool-cases, inl, inr,
}
use ratelimit_gateway.Number.{Number}
use ratelimit_gateway.Dashboard.Stats.{Info, TierStat, Stats}
use ratelimit_gateway.Gateway.Breaker.{Breaker, reported_state}
use ratelimit_gateway.Gateway.Tenant.{Tier, Resolver, sort_tiers}
use ratelimit_gateway.Gateway.Tenant.Sorted.{IsInOrder, sort_tiers-IsInOrder, count-sort_tiers}
use ratelimit_gateway.Gateway.Stats.{
  Metric, Family, label, Gathered, seed_tier, count_total, count_tier, count_decision_metric,
  count_decision_metrics, count_error_metrics, take_family, take_families, empty_stats, slice_of,
  gathered_stats, handle_stats, state_text,
}

-- The metrics of the families of a name, in order.
abbrev pub metrics_of {ℓ} : {N : Type ℓ} → String → List (Family N) → List (Metric N)
metrics_of name [] = []
metrics_of name (f ∷ fs) =
    let rest = metrics_of name fs in if str_eq f.name name then f.metrics ++ rest else rest

-- A metric with this decision, and of this tier.
abbrev pub decides {ℓ} : {N : Type ℓ} → String → Metric N → Bool
decides decision m = str_eq (label "decision" m) decision

abbrev pub decides_for {ℓ} : {N : Type ℓ} → String → String → Metric N → Bool
decides_for tier decision m = str_eq tier (label "tier" m) && decides decision m

map-map {ℓ κ μ} :
    {A : Type ℓ} {B : Type κ} {C : Type μ} (f : B → C) (g : A → B) (h : A → C) (xs : List A)
    → ((x : A) → f (g x) ≡ h x)
    → map f (map g xs) ≡ map h xs
map-map f g h [] same = refl
map-map f g h (x ∷ xs) same = ap₂ ◌∷◌ (same x) (map-map f g h xs same)

map_unchanged {ℓ} : {A : Type ℓ} (f : A → A) (xs : List A) → ((x : A) → f x ≡ x) → map f xs ≡ xs
map_unchanged f [] same = refl
map_unchanged f (x ∷ xs) same = ap₂ ◌∷◌ (same x) (map_unchanged f xs same)

other_text : (a b d : String) → str_eq a b ≡ false → str_eq d a ≡ true → str_eq d b ≡ false
other_text a b d different same = ap (λ x. str_eq x b) ((eq_iff d a).0 same) ∙ different

abbrev decisions_name : String
decisions_name = "gateway_rate_limit_decisions_total"

abbrev errors_name : String
errors_name = "gateway_limiter_errors_total"

module _ {ℓ} {N : Type ℓ} ⦃num : Number N⦄ where
  -- A number, with the counters of these metrics added to it in order.
  abbrev pub plus_all : N → List (Metric N) → N
  plus_all n [] = n
  plus_all n (m ∷ ms) = plus_all (num.add n m.counter) ms

  -- A tier after some metrics of decisions.
  abbrev pub counted_tier : List (Metric N) → TierStat N → TierStat N
  counted_tier ms t = record t {
    allowed = plus_all t.allowed (filter (decides_for t.name "allowed") ms);
    throttled = plus_all t.throttled (filter (decides_for t.name "throttled") ms);
  }

  counted_tier-metric :
      (m : Metric N) (ms : List (Metric N)) (t : TierStat N)
      → counted_tier ms (count_tier (label "tier" m) (label "decision" m) m.counter t)
        ≡ counted_tier (m ∷ ms) t
  counted_tier-metric m ms t =
      let d = label "decision" m in
      elim (Bool-cases (str_eq t.name (label "tier" m))) [
        | inr other ↦ rw other refl
        | inl same ↦ elim (Bool-cases (str_eq d "allowed")) [
          | inl allowed ↦ rw (same, allowed, other_text "allowed" "throttled" d refl allowed) refl
          | inr refused ↦ elim (Bool-cases (str_eq d "throttled")) [
            | inl throttled ↦ rw (same, refused, throttled) refl
            | inr neither ↦ rw (same, refused, neither) refl
          ]
        ]
      ]

  -- Allowed, throttled, degraded and errors after the metrics of decisions and of errors.
  abbrev pub totals_after : List (Metric N) → List (Metric N) → Stats N → N × N × N × N
  totals_after ms es s = (
    plus_all s.allowed (filter (decides "allowed") ms),
    plus_all s.throttled (filter (decides "throttled") ms),
    plus_all s.degraded (filter (decides "degraded") ms),
    plus_all s.errors es,
  )

  totals_after-metric :
      (m : Metric N) (ms es : List (Metric N)) (s : Stats N)
      → totals_after ms es (count_total (label "decision" m) m.counter s)
        ≡ totals_after (m ∷ ms) es s
  totals_after-metric m ms es s =
      let d = label "decision" m in
      elim (Bool-cases (str_eq d "allowed")) [
        | inl allowed ↦
            rw
              (
                allowed,
                other_text "allowed" "throttled" d refl allowed,
                other_text "allowed" "degraded" d refl allowed,
              )
              refl
        | inr refused ↦ elim (Bool-cases (str_eq d "throttled")) [
          | inl throttled ↦
              rw (refused, throttled, other_text "throttled" "degraded" d refl throttled) refl
          | inr neither ↦ elim (Bool-cases (str_eq d "degraded")) [
            | inl degraded ↦ rw (refused, neither, degraded) refl
            | inr none_of_them ↦ rw (refused, neither, none_of_them) refl
          ]
        ]
      ]

  -- The counts with these metrics still to come.
  abbrev after :
      List (Metric N) → List (Metric N) → Gathered N → (N × N × N × N) × List (TierStat N)
  after ms es g = (totals_after ms es g.totals, map (counted_tier ms) g.by_tier)

  after-decisions :
      (ms ks es : List (Metric N)) (g : Gathered N)
      → after ks es (count_decision_metrics ms g) ≡ after (ms ++ ks) es g
  after-decisions [] ks es g = refl
  after-decisions (m ∷ ms) ks es g =
      after-decisions ms ks es (count_decision_metric m g)
      ∙ ap₂ (λ a b. (a, b)) (totals_after-metric m (ms ++ ks) es g.totals)
          (map-map (counted_tier (ms ++ ks))
            (count_tier (label "tier" m) (label "decision" m) m.counter)
            (counted_tier (m ∷ ms ++ ks)) g.by_tier (counted_tier-metric m (ms ++ ks)))

  after-errors :
      (ms ks es : List (Metric N)) (g : Gathered N)
      → after ks es (record g { totals = count_error_metrics ms g.totals }) ≡ after ks (ms ++ es) g
  after-errors [] ks es g = refl
  after-errors (m ∷ ms) ks es g =
      after-errors ms ks es
        (record g { totals = record (g.totals) { errors = num.add g.totals.errors m.counter } })

  after-family :
      (f : Family N) (fs : List (Family N)) (g : Gathered N)
      → after (metrics_of decisions_name fs) (metrics_of errors_name fs) (take_family f g)
        ≡ after (metrics_of decisions_name (f ∷ fs)) (metrics_of errors_name (f ∷ fs)) g
  after-family f fs g =
      let ks = metrics_of decisions_name fs in
      let es = metrics_of errors_name fs in
      elim (Bool-cases (str_eq f.name decisions_name)) [
        | inl decided ↦
            rw (decided, other_text decisions_name errors_name f.name refl decided)
              (after-decisions f.metrics ks es g)
        | inr other ↦ elim (Bool-cases (str_eq f.name errors_name)) [
          | inl failed ↦ rw (other, failed) (after-errors f.metrics ks es g)
          | inr further ↦ elim (Bool-cases (str_eq f.name "gateway_limiter_duration_seconds")) [
            | inl limited ↦ rw (other, further, limited) refl
            | inr last ↦ elim (Bool-cases (str_eq f.name "gateway_upstream_duration_seconds")) [
              | inl proxied ↦ rw (other, further, last, proxied) refl
              | inr unknown ↦ rw (other, further, last, unknown) refl
            ]
          ]
        ]
      ]

  after-families :
      (fs : List (Family N)) (g : Gathered N)
      → after [] [] (take_families fs g)
        ≡ after (metrics_of decisions_name fs) (metrics_of errors_name fs) g
  after-families [] g = refl
  after-families (f ∷ fs) g = after-families fs (take_family f g) ∙ after-family f fs g

  -- Whatever was gathered, the stats are answered, with the totals of allowed, throttled and
  -- degraded requests as the sums of the decision counters with that label, the errors as the sum
  -- of the error counters, and the resolver's tiers, each with the sums of the counters of its own
  -- decisions. They come in the dictionary order of their names, so that none has a name before an
  -- earlier one's, and of the tiers with any property there are as many as in the resolver.
  pub handle_stats-sums :
      (info : Info) (uptime : N) (healthy : Bool) (now : ℕ) (breaker : Breaker) (r : Resolver)
      (fs : List (Family N)) (p : Tier → Bool)
      → let ms = metrics_of "gateway_rate_limit_decisions_total" fs in
        let es = metrics_of "gateway_limiter_errors_total" fs in
        (s : Stats N) × (handle_stats info uptime healthy now breaker r (some fs) ≡ some s)
        × ((s.allowed, s.throttled, s.degraded, s.errors)
            ≡ totals_after ms es
                (empty_stats info uptime healthy (state_text (reported_state now breaker))))
        × (s.tiers ≡ slice_of (map (counted_tier ms) (map seed_tier (sort_tiers r.tiers))))
        × IsInOrder (sort_tiers r.tiers)
        × (count p (sort_tiers r.tiers) ≡ count p (map (λ e. e.1) r.tiers))
  unfolding handle_stats
  handle_stats-sums info uptime healthy now breaker r fs p =
      let start : Gathered N = record {
        totals = empty_stats info uptime healthy (state_text (reported_state now breaker));
        by_tier = map seed_tier (sort_tiers r.tiers);
      } in
      let counts = after-families fs start in
      (
        gathered_stats (take_families fs start),
        refl,
        ap (λ c. c.0) counts,
        ap slice_of (
            sym (map_unchanged (counted_tier []) (take_families fs start).by_tier (λ t. refl))
            ∙ ap (λ c. c.1) counts),
        sort_tiers-IsInOrder r.tiers,
        count-sort_tiers p r.tiers,
      )
