-- ===== src/Examples.antt =====
-- The theorems at concrete inputs.
pub mod Setting
pub mod Wire
pub mod Users
pub mod Session
pub mod Runs
pub mod Relations
pub mod Disk
pub mod Files
pub mod Database
