-- ===== src/Dashboard.antt =====
-- The operator's dashboard: internal/dashboard/static/app.js, and the payload of
-- internal/dashboard/dashboard.go that it polls.
pub mod Stats
pub mod Format
pub mod Header
pub mod Kpis
pub mod Tiers
pub mod Chart
pub mod Poll
pub mod Simulator
