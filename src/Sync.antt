-- ===== src/Sync.antt =====
-- Waiting and notifying: the second half of crates/core/src/runtime/shared_memory.rs.
pub mod Waiters
pub mod Parking
mod Tests
