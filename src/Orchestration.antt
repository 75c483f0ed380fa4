-- ===== src/Orchestration.antt =====
-- The rules of orchestration, which Airflow calls.
pub mod Daily
