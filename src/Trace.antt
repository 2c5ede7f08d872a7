-- ===== src/Trace.antt =====
-- The services together.
pub mod Steps
pub mod Preserved
pub mod Moves
pub mod Statements
pub mod System
mod Tests
