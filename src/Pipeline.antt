-- ===== src/Pipeline.antt =====
-- The batch pipeline of ingestion/batch/pipeline, before the serving publication.
pub mod Storage
pub mod Plan
pub mod Reconcile
pub mod Coverage
pub mod Validation
