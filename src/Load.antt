-- ===== src/Load.antt =====
-- The load harness's libraries, scripts/load/lib/.
pub mod HmacChain
