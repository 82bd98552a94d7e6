-- ===== src/Ingestion/Pipeline/Outcomes.antt =====
-- What `run` of pipeline.py reports.
pub mod Each
pub mod Whole
