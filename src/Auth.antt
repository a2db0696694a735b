-- ===== src/Auth.antt =====
-- The package auth: the session store, the one-time codes, the user directory and TOTP.
pub mod Sessions
pub mod Otp
pub mod Totp
pub mod Directory
