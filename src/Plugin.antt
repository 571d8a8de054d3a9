-- ===== src/Plugin.antt =====
-- plugin: the modules that scripts load, and the activities that they execute.
pub mod Asserts
pub mod Clock
pub mod Digests
pub mod Json
pub mod RunState
pub mod Concurrent
pub mod Random
pub mod Request
pub mod Response
pub mod Workflow
