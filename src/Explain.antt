-- ===== src/Explain.antt =====
-- The explainer: internal/dashboard/static/explain.js, of which the console serves a copy.
pub mod Words
pub mod Marks
pub mod Glossary
pub mod Texts
pub mod Panel
