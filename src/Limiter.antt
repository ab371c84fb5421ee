-- ===== src/Limiter.antt =====
-- The limiter: internal/limiter, its interface, the three Lua scripts, and redis.go.
pub mod Store
pub mod SlidingWindow
pub mod FixedWindow
pub mod TokenBucket
pub mod Redis
pub mod Memory
use ratelimit_gateway.Base.{ℕ}

-- The four numbers that each script returns; none is negative.
pub record Reply : Type 0 where
  pub allowed : ℕ
  pub remaining : ℕ
  pub retry_after_ms : ℕ
  pub reset_after_ms : ℕ
