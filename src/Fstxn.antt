-- ===== src/Fstxn.antt =====
-- fstxn/: transactions that lock inodes and keep them in a cache, over alloctxn/.
pub mod State
pub mod Inodes
pub mod Commit
pub mod Owned
pub mod Quiet
pub mod Releases
pub mod Acquires
pub mod Locks
pub mod Handles
pub mod Fresh
