-- ===== src/Domain.antt =====
-- The entities of app/src/notes_rag/domain: notes, users and sessions, chat, indexing.
pub mod Notes
pub mod Users
pub mod Chat
pub mod Chunking
pub mod Jobs
