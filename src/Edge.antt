-- ===== src/Edge.antt =====
-- The small guards of the edge functions and the anonymous display path.
pub mod RateLimit
pub mod ClientIp
pub mod Texts
pub mod Bearer
pub mod Sentinel
