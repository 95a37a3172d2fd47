-- ===== src/Mirror.antt =====
-- bin/fernfs: the file system that mirrors a directory of the host.
pub mod Attributes
pub mod Entry
pub mod Map
pub mod Tree
pub mod Host
pub mod Refresh
pub mod Files
pub mod Lookup
pub mod PathBuf
pub mod Setattr
pub mod Objects
pub mod Create
pub mod Special
pub mod Changes
pub mod Quiet
