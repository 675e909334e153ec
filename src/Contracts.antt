-- ===== src/Contracts.antt =====
-- packages/contracts/toollayer_contracts: what every service shares.
pub mod Errors
pub mod Version
pub mod CanonicalJson
pub mod Signing
pub mod Models
pub mod Validation
