-- ===== src/Tests.antt =====
-- The theorems applied to concrete inputs of each part.
pub mod World
pub mod Contracts
pub mod Runtime
pub mod Orchestrator
pub mod Policy
pub mod Arguments
pub mod ControlPlane
pub mod Database
pub mod Publishing
pub mod Snapshots
pub mod Requests
pub mod Destinations
pub mod OpenApi
pub mod Analyzer
