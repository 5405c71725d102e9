-- ===== src/Ops.antt =====
-- The scripts of operation.
pub mod Transparency
