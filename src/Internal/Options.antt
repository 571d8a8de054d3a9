-- ===== src/Internal/Options.antt =====
-- How internal/internal_cadence.go and internal/internal_temporal.go turn the shared options into
-- those of their engine, and an engine's activity data into the shared one.
pub mod Cadence
pub mod Temporal
pub mod Agree
