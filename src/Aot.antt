-- ===== src/Aot.antt =====
-- crates/core/src/aot: the integrity section and the reader of artifacts, and the store of functions and tables.
pub mod Integrity
pub mod Reader
pub mod Store
mod Tests
