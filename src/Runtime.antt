-- ===== src/Runtime.antt =====
-- apps/runtime/runtime_service: the service that holds a deployment's snapshot and serves it.
pub mod Snapshot
pub mod Store
pub mod Orchestrator
