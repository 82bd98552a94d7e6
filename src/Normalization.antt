-- ===== src/Normalization.antt =====
-- src/engineering_memory/normalization: the vocabulary that every stage of the import speaks.
pub mod Values
pub mod Conversation
pub mod Identity
pub mod Tags
pub mod Rendering
pub mod Provenance
pub mod Enrichment
pub mod Canonical
pub mod Clock
pub mod Coverage
pub mod Tests
