-- ===== src/Examples.antt =====
-- Runs of the models at concrete inputs, and the theorems at inputs that meet their hypotheses.
mod Dashboard
mod Console
mod Gateway
mod Explain
mod Limiter
mod LoadTest
mod Tenant
mod Stats
mod Server
mod Settings
mod Startup
mod Overlap
