-- ===== src/Proxy.antt =====
-- The package proxy: the generated configuration of NGINX.
pub mod Group
pub mod Locations
