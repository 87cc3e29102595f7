-- ===== src/Runtime.antt =====
-- crates/core/src/runtime.
pub mod Error
pub mod Types
pub mod Values
pub mod Table
pub mod Globals
pub mod Metering
pub mod Module
pub mod ConstExpr
pub mod AtomicOp
mod Tests
