-- ===== src/Dir.antt =====
-- dir/dir.go: directories, files of entries of 128 bytes.
pub mod Entries
pub mod Scan
pub mod Apply
pub mod Names
pub mod Inums
pub mod Locks
