-- ===== src/Cmd.antt =====
-- cmd: the commands.
pub mod Run
pub mod Temporal
pub mod Targets
pub mod Service
