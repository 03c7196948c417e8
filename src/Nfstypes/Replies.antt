-- ===== src/Nfstypes/Replies.antt =====
-- nfstypes/nfs_types.go: arguments and replies of the procedures that the simple server implements.
-- Fields that no handler sets (`Resfail`, `Verf`, the weak cache data) are left out.
use go_nfsd.Prelude.{ℕ, Bool, false, List, []}
use go_nfsd.Nfstypes.Basic.{
  Bytes, Nfsstat3, nfs3_ok, NfsFh3, Nfstime3, Fattr3, Sattr3, Diropargs3, StableHow, unstable,
  zero_fattr, zero_fh,
}

pub record GetattrArgs : Type 0 where
  pub object : NfsFh3

pub record GetattrRes : Type 0 where
  pub status : Nfsstat3
  pub obj_attributes : Fattr3

pub record Sattrguard3 : Type 0 where
  pub check : Bool
  pub obj_ctime : Nfstime3

pub record SetattrArgs : Type 0 where
  pub object : NfsFh3
  pub new_attributes : Sattr3
  pub guard : Sattrguard3

pub record SetattrRes : Type 0 where
  pub status : Nfsstat3

pub record LookupArgs : Type 0 where
  pub what : Diropargs3

pub record LookupRes : Type 0 where
  pub status : Nfsstat3
  pub object : NfsFh3

pub record AccessRes : Type 0 where
  pub status : Nfsstat3
  pub access : ℕ

pub record ReadArgs : Type 0 where
  pub file : NfsFh3
  pub offset : ℕ
  pub count : ℕ

pub record ReadRes : Type 0 where
  pub status : Nfsstat3
  pub count : ℕ
  pub eof : Bool
  pub bytes : Bytes

pub record WriteArgs : Type 0 where
  pub file : NfsFh3
  pub offset : ℕ
  pub count : ℕ
  pub stable : StableHow
  pub bytes : Bytes

pub record WriteRes : Type 0 where
  pub status : Nfsstat3
  pub count : ℕ
  pub committed : StableHow

pub record CommitArgs : Type 0 where
  pub file : NfsFh3
  pub offset : ℕ
  pub count : ℕ

-- Procedures whose reply carries nothing but its status.
pub record StatusRes : Type 0 where
  pub status : Nfsstat3

pub record Entry3 : Type 0 where
  pub fileid : ℕ
  pub name : Bytes
  pub cookie : ℕ

-- A Go list linked by `Nextentry` is a list.
pub record Dirlist3 : Type 0 where
  pub entries : List Entry3
  pub eof : Bool

pub record ReaddirRes : Type 0 where
  pub status : Nfsstat3
  pub reply : Dirlist3

pub record FsinfoRes : Type 0 where
  pub status : Nfsstat3
  pub wtmax : ℕ
  pub maxfilesize : ℕ

abbrev pub zero_getattr : GetattrRes
zero_getattr = record { status = nfs3_ok; obj_attributes = zero_fattr }

abbrev pub zero_setattr : SetattrRes
zero_setattr = record { status = nfs3_ok }

abbrev pub zero_lookup : LookupRes
zero_lookup = record { status = nfs3_ok; object = zero_fh }

abbrev pub zero_read : ReadRes
zero_read = record { status = nfs3_ok; count = 0; eof = false; bytes = [] }

abbrev pub zero_write : WriteRes
zero_write = record { status = nfs3_ok; count = 0; committed = unstable }
