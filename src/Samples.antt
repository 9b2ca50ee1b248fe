-- ===== src/Samples.antt =====
-- Concrete crates and configurations for the examples of the other modules: a toy digest, a toy
-- encoding and readable serializers, which keep the laws that are asked of the real ones.
pub mod Codec
pub mod Crates
pub mod Service
pub mod Runs
pub mod Examples
pub mod FamilyExamples
pub mod TokenExamples
pub mod InboxExamples
pub mod DirectoryExamples
pub mod NoteExamples
pub mod ConfigExamples
pub mod AuthExamples
pub mod SearchExamples
pub mod ServerExamples
