-- ===== src/Server.antt =====
-- The gateway's process: cmd/gateway/main.go, with its configuration, its listeners' routes and the
-- way of a request through the tenants, the limiter and the middleware.
pub mod Config
pub mod Pipeline
pub mod Proxy
pub mod Routes
pub mod Startup
