-- ===== src/Simple.antt =====
-- simple: an NFS server of two fixed files of one block each ("a" and "b"), over the journal.
mod Layout
pub mod Inode
mod Ops
mod Procs
pub mod Loops
pub mod Files
pub mod Codec
pub mod Server
pub mod Init
pub mod Names
pub mod Runs
pub mod Blocks
unfoldable pub use Layout.*
unfoldable pub use Inode.*
unfoldable pub use Ops.*
unfoldable pub use Procs.*
