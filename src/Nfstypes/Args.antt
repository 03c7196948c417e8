-- ===== src/Nfstypes/Args.antt =====
-- nfstypes/nfs_types.go: the arguments of the procedures that answer without reading them.
use go_nfsd.Prelude.{ℕ}
use go_nfsd.Nfstypes.Basic.{NfsFh3, Sattr3, Specdata3, Diropargs3}

abbrev pub nf3blk : ℕ
nf3blk = 3

abbrev pub nf3chr : ℕ
nf3chr = 4

abbrev pub nf3sock : ℕ
nf3sock = 6

abbrev pub nf3fifo : ℕ
nf3fifo = 7

pub record AccessArgs : Type 0 where
  pub object : NfsFh3
  pub access : ℕ

pub record Devicedata3 : Type 0 where
  pub dev_attributes : Sattr3
  pub spec : Specdata3

pub record Mknoddata3 : Type 0 where
  pub ftype : ℕ
  pub device : Devicedata3
  pub pipe_attributes : Sattr3

pub record MknodArgs : Type 0 where
  pub location : Diropargs3
  pub what : Mknoddata3

pub record LinkArgs : Type 0 where
  pub file : NfsFh3
  pub link : Diropargs3

pub record FsstatArgs : Type 0 where
  pub fsroot : NfsFh3

pub record FsinfoArgs : Type 0 where
  pub fsroot : NfsFh3

pub record PathconfArgs : Type 0 where
  pub object : NfsFh3
