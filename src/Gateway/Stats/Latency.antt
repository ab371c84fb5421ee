-- ===== src/Gateway/Stats/Latency.antt =====
-- `aggregateHistogram`, `quantile` and `sortFloats` of internal/dashboard/dashboard.go. Counts are
-- uint64; a Go map by bounds is an association list.
use ratelimit_gateway.Base.{ℕ, ◌+◌, ◌%◌, Bool, not, ◌&&◌, List, [], ◌∷◌, map, if◌then◌else◌, ◌==◌}
use ratelimit_gateway.Number.{Number}
use ratelimit_gateway.Dashboard.Stats.{LatencyStat}

pub record Histogram {ℓ} (N : Type ℓ) : Type ℓ where
  pub sample_count : ℕ
  pub buckets : List (N × ℕ)

-- The sum of two uint64.
abbrev pub add_uint64 : ℕ → ℕ → ℕ
add_uint64 a b = (a + b) % 18_446_744_073_709_551_616

abbrev pub reverse_onto {κ} : {A : Type κ} → List A → List A → List A
reverse_onto done [] = done
reverse_onto done (x ∷ xs) = reverse_onto (x ∷ done) xs

module _ {ℓ} {N : Type ℓ} ⦃num : Number N⦄ where
  open num use {nat, add, sub, mul, div, lt, eq, is_finite}

  abbrev pub no_latency : LatencyStat N
  no_latency = record { p50 = nat 0; p95 = nat 0; p99 = nat 0; count = nat 0 }

  -- The inner loop: an element moves in front of the greater ones before it, which stand here in
  -- the reversed order.
  abbrev pub sink : N → List N → List N
  sink x [] = x ∷ []
  sink x (p ∷ ps) = let rest = sink x ps in if lt x p then p ∷ rest else x ∷ p ∷ ps

  -- The outer loop, over what is sorted, reversed, and the rest.
  abbrev pub sort_from : List N → List N → List N
  sort_from done [] = done
  sort_from done (x ∷ xs) = sort_from (sink x done) xs

  unfoldable pub sort_floats : List N → List N
  sort_floats values = reverse_onto [] (sort_from [] values)

  -- `merged[bound] += count`.
  abbrev pub merge_bucket : N → ℕ → List (N × ℕ) → List (N × ℕ)
  merge_bucket bound count [] = (bound, count) ∷ []
  merge_bucket bound count (e ∷ es) =
      let rest = merge_bucket bound count es in
      if eq e.0 bound then (e.0, add_uint64 e.1 count) ∷ es else e ∷ rest

  abbrev pub merge_buckets : List (N × ℕ) → List (N × ℕ) → List (N × ℕ)
  merge_buckets merged [] = merged
  merge_buckets merged (b ∷ bs) = merge_buckets (merge_bucket b.0 b.1 merged) bs

  abbrev pub merge_histograms : List (N × ℕ) → List (Histogram N) → List (N × ℕ)
  merge_histograms merged [] = merged
  merge_histograms merged (h ∷ hs) = merge_histograms (merge_buckets merged h.buckets) hs

  abbrev pub total_count : ℕ → List (Histogram N) → ℕ
  total_count total [] = total
  total_count total (h ∷ hs) = total_count (add_uint64 total h.sample_count) hs

  -- `cumulative[bound]`.
  abbrev pub count_at : List (N × ℕ) → N → ℕ
  count_at [] bound = 0
  count_at (e ∷ es) bound = let rest = count_at es bound in if eq e.0 bound then e.1 else rest

  -- `math.IsInf(bound, +1)`.
  abbrev pub is_infinity : N → Bool
  is_infinity bound = lt (nat 0) bound && not (is_finite bound)

  -- The answer of the loop at a bound whose count is not below the target.
  abbrev pub interpolate : N → N → N → N → N → N
  interpolate target prev_count prev_bound count bound =
      if is_infinity bound
      then prev_bound
      else if eq count prev_count
      then bound
      else add prev_bound
          (mul (div (sub target prev_count) (sub count prev_count)) (sub bound prev_bound))

  abbrev pub quantile_from : List (N × ℕ) → N → N → N → List N → N
  quantile_from cumulative target prev_count prev_bound [] = prev_bound
  quantile_from cumulative target prev_count prev_bound (bound ∷ bounds) =
      let count = nat (count_at cumulative bound) in
      let later = quantile_from cumulative target count bound bounds in
      if lt count target then later else interpolate target prev_count prev_bound count bound

  unfoldable pub quantile : List N → List (N × ℕ) → ℕ → N → N
  quantile bounds cumulative total q =
      quantile_from cumulative (mul q (nat total)) (nat 0) (nat 0) bounds

  unfoldable pub aggregate_histogram : List (Histogram N) → LatencyStat N
  aggregate_histogram hs =
      let merged = merge_histograms [] hs in
      let total = total_count 0 hs in
      let bounds = sort_floats (map (λ e. e.0) merged) in
      let latency : LatencyStat N = record {
        p50 = quantile bounds merged total (div (nat 50) (nat 100));
        p95 = quantile bounds merged total (div (nat 95) (nat 100));
        p99 = quantile bounds merged total (div (nat 99) (nat 100));
        count = nat total;
      } in
      if total == 0 then no_latency else latency
