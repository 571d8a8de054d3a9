-- ===== src/Service.antt =====
-- The workflow service, package service/.
pub mod ExitHooks
pub mod Threads
pub mod Builder
pub mod Lifecycle
pub mod Registration
pub mod SetUp
