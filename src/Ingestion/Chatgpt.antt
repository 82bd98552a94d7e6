-- ===== src/Ingestion/Chatgpt.antt =====
-- src/engineering_memory/ingestion/chatgpt: how one record of a ChatGPT export is read.
pub mod Unreadable
pub mod Thread
pub mod Values
pub mod Content
pub mod ToolCalls
pub mod Record
pub mod Source
pub mod Tests
pub mod RecordTests
