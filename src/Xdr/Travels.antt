-- ===== src/Xdr/Travels.antt =====
-- nfstypes/nfs_xdr.go: round trips, for values that fit a message: numbers within their width, strings
-- within their limits, and zero in the parts of a union that its tag leaves out.
pub mod Attributes
pub mod ArgsFit
pub mod Args
pub mod Replies
pub mod Lists
