-- ===== src/Interpreter.antt =====
-- crates/core/src/interpreter: the stacks of the interpreter.
pub mod Stack
mod Tests
