-- ===== src/Dashboard/Stats.antt =====
-- The answer of `/api/stats`, as dashboard.go encodes it and app.js reads it.
use ratelimit_gateway.Base.{String, Bool, Option, List}

pub record Info : Type 0 where
  pub algorithm : String
  pub upstream : String
  pub redis_addr : String
  pub fail_open : Bool

pub record TierStat {ℓ} (N : Type ℓ) : Type ℓ where
  pub name : String
  pub limit : N
  pub window : String
  pub burst : N
  pub allowed : N
  pub throttled : N

pub record LatencyStat {ℓ} (N : Type ℓ) : Type ℓ where
  pub p50 : N
  pub p95 : N
  pub p99 : N
  pub count : N

-- `tiers` is a Go slice: a nil slice is encoded as `null`.
pub record Stats {ℓ} (N : Type ℓ) : Type ℓ where
  pub info : Info
  pub uptime_seconds : N
  pub redis_healthy : Bool
  pub breaker_state : String
  pub allowed : N
  pub throttled : N
  pub degraded : N
  pub errors : N
  pub tiers : Option (List (TierStat N))
  pub limiter : LatencyStat N
  pub upstream : LatencyStat N
