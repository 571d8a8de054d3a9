-- ===== src/Client.antt =====
-- client: what the clients of both engines share, packing a script with all that it loads.
pub mod Package
pub mod Follow
