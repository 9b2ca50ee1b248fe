-- ===== src/Config.antt =====
-- The configuration of src/config.rs.
pub mod Values
pub mod Load
