-- ===== src/Demo.antt =====
-- examples/demo_fs: the file system in memory.
pub mod Entry
pub mod Look
pub mod Change
pub mod Create
pub mod Sharing
pub mod Names
pub mod Sound
pub mod Creating
