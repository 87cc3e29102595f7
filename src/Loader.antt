-- ===== src/Loader.antt =====
-- crates/core/src/loader.
pub mod Reader
pub mod Parser
pub mod Validator
mod Tests
