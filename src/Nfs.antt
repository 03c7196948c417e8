-- ===== src/Nfs.antt =====
-- nfs/: the full server.
pub mod Lorder
pub mod Locking
pub mod Session
pub mod Mkfs
pub mod Start
pub mod Ending
pub mod Files
pub mod Creating
pub mod Removing
pub mod Renaming
pub mod Listing
pub mod Requests
pub mod Results
pub mod Methods
pub mod Wire
pub mod Locks
pub mod Mount
