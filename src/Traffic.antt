-- ===== src/Traffic.antt =====
-- Assignment2: the intersection.
pub mod Path
pub mod Lane
mod Tests
