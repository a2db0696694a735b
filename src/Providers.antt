-- ===== src/Providers.antt =====
-- The package providers: who checks a name and a password.
pub mod Answer
pub mod Local
pub mod Ldap
