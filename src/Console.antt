-- ===== src/Console.antt =====
-- The caller's console: internal/console/static/app.js.
pub mod Config
pub mod Result
pub mod Meter
pub mod Log
pub mod Record
pub mod Send
