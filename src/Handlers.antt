-- ===== src/Handlers.antt =====
-- The package handlers: the gate's request handlers.
pub mod Net
pub mod Number
pub mod Server
pub mod Validate
pub mod Next
pub mod Reply
pub mod Gate
pub mod Login
pub mod Code
pub mod Services
pub mod Listing
pub mod Admin
pub mod Setup
pub mod Profile
pub mod ProviderForms
