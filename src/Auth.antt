-- ===== src/Auth.antt =====
-- Scopes, credentials and rate limits of src/auth.rs.
pub mod Access
pub mod Keys
pub mod Limits
