-- ===== src/Dashboard/Poll.antt =====
-- The polling loop of internal/dashboard/static/app.js. One step is what `poll` does once the
-- answer is there: nothing else runs between the last `await` and the end of the function.
pub mod States
pub mod History
pub mod Restart
pub mod Status
pub mod Growth
use ratelimit_gateway.Base.{
  ℕ, ◌+◌, Option, none, some, List, [], ◌∷◌, if◌then◌else◌, leb, push_bounded,
}
use ratelimit_gateway.Number.{Number, le, max}
use ratelimit_gateway.Dashboard.Stats.{Stats}
use ratelimit_gateway.Dashboard.Header.{Header, render_header, show_unreachable}
use ratelimit_gateway.Dashboard.Kpis.{Rates, Kpis, render_kpis}
use ratelimit_gateway.Dashboard.Tiers.{TierList, TierOptions, render_tiers, populate_tier_options}
use ratelimit_gateway.Dashboard.Chart.{history_size, Viewport, Chart, draw_chart}

-- The script's `state`.
pub record State {ℓ} (N : Type ℓ) : Type ℓ where
  pub previous : Option (Stats N)
  pub history : List (Rates N)
  pub failures : ℕ

-- The state with the parts of the page that `poll` writes.
pub record Client {ℓ} (N : Type ℓ) : Type ℓ where
  pub state : State N
  pub header : Header
  pub kpis : Kpis
  pub tier_list : TierList
  pub tier_options : TierOptions
  pub chart : Chart N

-- How a request for `api/stats` ends: no connection or no JSON, another status, or the payload.
pub data Reply {ℓ} (N : Type ℓ) : Type ℓ where
  unreachable : Reply N
  refused : ℕ → Reply N
  answered : Stats N → Reply N

module _ {ℓ} {N : Type ℓ} where
  abbrev pub initial_state : State N
  initial_state = record { previous = none; history = []; failures = 0 }

  -- `xs[xs.length - 1] || rates`.
  abbrev pub last_or : Rates N → List (Rates N) → Rates N
  last_or rates [] = rates
  last_or rates (s ∷ ss) = last_or s ss

  unfoldable pub poll_failed : Client N → Client N
  poll_failed c =
      let failed : State N = record (c.state) { failures = c.state.failures + 1 } in
      record c {
        state = failed;
        header = if leb 3 failed.failures then show_unreachable c.header else c.header;
      }

module _ {ℓ} {N : Type ℓ} ⦃num : Number N⦄ where
  open num use {nat, sub, div}

  -- `MIN_SAMPLE_SECONDS`.
  abbrev pub min_sample_seconds : N
  min_sample_seconds = div (nat 1) (nat 2)

  abbrev pub no_rates : Rates N
  no_rates = record { allowed = nat 0; throttled = nat 0 }

  abbrev pub elapsed_since : Stats N → Stats N → N
  elapsed_since prev stats = sub stats.uptime_seconds prev.uptime_seconds

  -- The growth of the two counters, in units per second.
  unfoldable pub rates_between : Stats N → Stats N → Rates N
  rates_between prev stats =
      let elapsed = elapsed_since prev stats in
      record {
        allowed = div (max (nat 0) (sub stats.allowed prev.allowed)) elapsed;
        throttled = div (max (nat 0) (sub stats.throttled prev.throttled)) elapsed;
      }

  -- The new state, and the rates to show.
  unfoldable pub measure : Stats N → State N → Option (Stats N) → State N × Rates N
  measure stats state none = (record state { previous = some stats }, no_rates)
  measure stats state (some prev) =
      if le min_sample_seconds (elapsed_since prev stats)
      then (
        record state {
          previous = some stats;
          history = push_bounded history_size state.history (rates_between prev stats);
        },
        rates_between prev stats,
      )
      else (state, last_or no_rates state.history)

  unfoldable pub poll_answered : Viewport N → Stats N → Client N → Client N
  poll_answered view stats c =
      let fresh : State N = record (c.state) { failures = 0 } in
      let (state, rates) = measure stats fresh fresh.previous in
      record {
        state = state;
        header = render_header stats c.header;
        kpis = render_kpis stats rates;
        tier_list = render_tiers stats.tiers;
        tier_options = populate_tier_options stats.tiers c.tier_options;
        chart = draw_chart view state.history c.chart;
      }

  unfoldable pub poll : Viewport N → Reply N → Client N → Client N
  poll view unreachable c = poll_failed c
  poll view (refused status) c = poll_failed c
  poll view (answered stats) c = poll_answered view stats c

  -- Any number of polls, in the order in which their answers arrive.
  unfoldable pub polls : Viewport N → List (Reply N) → Client N → Client N
  polls view [] c = c
  polls view (r ∷ rs) c = polls view rs (poll view r c)
