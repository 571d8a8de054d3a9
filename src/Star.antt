-- ===== src/Star.antt =====
-- Package star/: the values that scripts exchange, their JSON codec and the loading of files.
pub mod Errors
pub mod Values
pub mod Base64
pub mod Dataclass
pub mod Codec
pub mod Files
pub mod Load
mod Tests
