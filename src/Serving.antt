-- ===== src/Serving.antt =====
-- ingestion/batch/pipeline: the ClickHouse serving copy, its publication and its retention.
pub mod Ids
pub mod Retention
pub mod Changes
pub mod Summaries
pub mod Profile
pub mod Publish
