-- ===== src/External.antt =====
-- What the program uses of other repositories (go-journal, goose-lang, tchajed/marshal), as
-- parameters: a record of constants and operations each, and a record of their documented laws.
pub mod Common
pub mod Journal
pub mod Marshal
pub mod Lockmap
pub mod Alloc
pub mod World
pub mod Xdr
pub mod Disks
