-- ===== src/ControlPlane.antt =====
-- The parts of apps/control-plane/backend.
pub mod Review
pub mod Rows
pub mod Publication
pub mod Versions
pub mod Drafts
pub mod Releases
pub mod Deployments
pub mod Requests
