-- ===== src/Ext2.antt =====
-- Assignment4: the ext2 file system.
pub mod Image
pub mod Resource
pub mod Alloc
pub mod Names
pub mod Directory
pub mod Remove
pub mod Reclaim
pub mod Restore
pub mod Path
pub mod Copy
pub mod Tools
pub mod Checker
pub mod Sample
mod Tests
mod UndeleteTests
