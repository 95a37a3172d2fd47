-- ===== src/Nfs.antt =====
-- protocol/nfs/v3: the procedures of NFS version 3, each with its reply and the file system's state.
pub mod Steps
pub mod Look
pub mod Listing
pub mod Stat
pub mod Program
pub mod Change
pub mod Create
pub mod Remove
pub mod ReadOnly
pub mod Denied
pub mod Replies
pub mod Access
