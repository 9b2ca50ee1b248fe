-- ===== src/OAuth.antt =====
-- The OAuth authorization server and the bearer authenticator of src/oauth.rs.
pub mod Error
pub mod Crates
pub mod Families
pub mod Scopes
pub mod Signing
pub mod Tokens
pub mod Clients
pub mod TokenClient
pub mod Pkce
pub mod Codes
pub mod Page
pub mod Authorize
pub mod Exchange
