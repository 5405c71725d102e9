-- ===== src/Server.antt =====
-- The reference backend, src/server/.
pub mod Windows
pub mod Clicks
pub mod Handler
