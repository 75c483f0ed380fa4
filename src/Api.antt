-- ===== src/Api.antt =====
-- apps/api: the read-only product API in front of the serving copy.
pub mod Auth
pub mod Scope
pub mod Summary
pub mod Readiness
pub mod Metrics
pub mod Context
