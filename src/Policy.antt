-- ===== src/Policy.antt =====
-- packages/policy-engine: who may call a tool, and the request that a call becomes.
pub mod Authorization
pub mod UrlText
pub mod Address
pub mod Url
pub mod Destinations
pub mod Executor
pub mod Arguments
