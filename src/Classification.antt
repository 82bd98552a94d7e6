-- ===== src/Classification.antt =====
-- src/engineering_memory/classification: which project a conversation names.
pub mod Priorities
pub mod Rules
pub mod Matcher
pub mod AliasClassifier
pub mod Chain
pub mod Tests
