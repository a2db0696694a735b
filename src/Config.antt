-- ===== src/Config.antt =====
-- The package config: the checks on a loaded configuration.
pub mod Validate
pub mod Expand
