-- ===== src/Remote.antt =====
-- The package remote: commands by chat.
pub mod Control
