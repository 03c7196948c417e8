-- ===== src/Nfstypes.antt =====
-- nfstypes/nfs_types.go: the NFS version 3 types. Integers are plain numbers, and strings and byte
-- slices are lists of bytes.
mod Basic
pub mod Replies
pub mod Procs
pub mod Args
pub mod Results
pub mod Zeros
pub use Basic.*
