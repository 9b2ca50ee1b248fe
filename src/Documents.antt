-- ===== src/Documents.antt =====
-- Documents of the knowledge base: src/document.rs and src/search.rs.
pub mod Id
pub mod Read
pub mod Search
