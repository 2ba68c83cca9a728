-- ===== src/Paging.antt =====
-- Assignment3: the simulated paging system.
pub mod Bitmap
pub mod Policy
pub mod PageTable
pub mod Simulator
mod Tests
