-- ===== src/Dashboard/Kpis.antt =====
-- The key figures of the dashboard: `renderKpis` of app.js.
use ratelimit_gateway.Base.{String, Bool}
use ratelimit_gateway.Number.{Number}
use ratelimit_gateway.Dashboard.Stats.{Stats}
use ratelimit_gateway.Dashboard.Format.{format_count, format_latency}

-- One element of `state.history`: rates per second.
pub record Rates {ℓ} (N : Type ℓ) : Type ℓ where
  pub allowed : N
  pub throttled : N

pub record Kpis : Type 0 where
  pub allowed : String
  pub throttled : String
  pub degraded : String
  pub degraded_active : Bool
  pub allowed_rate : String
  pub throttled_rate : String
  pub p50 : String
  pub p95 : String
  pub p99 : String

module _ {ℓ} {N : Type ℓ} ⦃num : Number N⦄ where
  unfoldable pub render_kpis : Stats N → Rates N → Kpis
  render_kpis stats rates = record {
    allowed = format_count stats.allowed;
    throttled = format_count stats.throttled;
    degraded = format_count stats.degraded;
    degraded_active = num.lt (num.nat 0) stats.degraded;
    allowed_rate = num.fixed 0 rates.allowed;
    throttled_rate = num.fixed 0 rates.throttled;
    p50 = format_latency stats.limiter.p50;
    p95 = format_latency stats.limiter.p95;
    p99 = format_latency stats.limiter.p99;
  }
