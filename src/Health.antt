-- ===== src/Health.antt =====
-- The package health: probes of the backends and alerts about them.
pub mod Checker
