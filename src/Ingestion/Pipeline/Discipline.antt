-- ===== src/Ingestion/Pipeline/Discipline.antt =====
-- The order of the calls that pipeline.py makes.
pub mod Rules
pub mod Stages
pub mod Order
