-- ===== src/Client.antt =====
-- The status-line client, src/client/.
pub mod Auth
pub mod SessionKey
pub mod Window
