-- ===== src/Tests.antt =====
-- The theorems at concrete values.
pub mod Fixtures
pub mod Access
pub mod Sessions
pub mod Codes
pub mod Logins
pub mod Settings
pub mod Sites
pub mod Header
pub mod Probes
pub mod Admin
pub mod Wizard
pub mod Commands
