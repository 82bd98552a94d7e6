-- ===== src/Ingestion.antt =====
-- src/engineering_memory/ingestion: the import of conversations, one at a time.
pub mod State
pub mod Report
pub mod Pipeline
pub mod Tests
pub mod Chatgpt
pub mod SqliteState
