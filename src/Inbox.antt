-- ===== src/Inbox.antt =====
-- The writable inbox of src/inbox.rs: what is checked of a note, and the slug of its file name.
pub mod Slug
pub mod Checks
pub mod Calendar
pub mod Names
pub mod Render
pub mod Create
