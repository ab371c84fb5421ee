-- ===== src/Gateway.antt =====
-- The gateway itself, as far as its two pages depend on it.
pub mod Breaker
pub mod Middleware
pub mod Simulate
pub mod Tenant
pub mod Stats
