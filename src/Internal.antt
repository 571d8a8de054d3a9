-- ===== src/Internal.antt =====
-- Package internal/: the workflow engine that scripts run on, over Cadence and over Temporal.
pub mod Types
pub mod Signature
pub mod Engine
pub mod Options
pub mod Convert
pub mod Batch
