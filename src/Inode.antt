-- ===== src/Inode.antt =====
-- inode/: the inodes of the full server.
pub mod Layout
pub mod Blocks
pub mod Data
pub mod Sizes
pub mod Codec
pub mod Fuel
pub mod Shrinking
pub mod Inums
pub mod Direct
pub mod Contents
pub mod Reading
pub mod Rounds
pub mod Filled
pub mod Writing
pub mod Whole
pub mod Updates
pub mod Resizing
