-- ===== src/OpenApi.antt =====
-- packages/openapi-converter: from an uploaded API description to candidate tools.
pub mod Errors
pub mod Naming
pub mod References
pub mod Schemas
pub mod Parameters
pub mod Converter
pub mod Analyzer
