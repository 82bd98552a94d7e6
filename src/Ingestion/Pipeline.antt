-- ===== src/Ingestion/Pipeline.antt =====
-- src/engineering_memory/ingestion/pipeline.py
pub mod Boundaries
pub mod Process
pub mod Run
pub mod Discipline
pub mod Outcomes
pub mod Skips
pub mod Skipped
