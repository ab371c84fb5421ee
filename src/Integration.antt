-- ===== src/Integration.antt =====
-- The gateway's answers as its pages show them: internal/middleware/ratelimit.go with
-- internal/console/static/app.js, and internal/dashboard/dashboard.go with
-- internal/dashboard/static/app.js.
pub mod Degraded
pub mod Burst
pub mod Retry
