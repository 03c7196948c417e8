-- ===== src/Nfstypes/Procs.antt =====
-- nfstypes/nfs_types.go: arguments and replies of the procedures of the full server, where they differ
-- from those of the simple one. Fields that no handler sets or reads are left out.
use go_nfsd.Prelude.{ℕ, Bool, false, List, []}
use go_nfsd.Nfstypes.Basic.{
  Bytes, Nfsstat3, nfs3_ok, NfsFh3, PostOpAttr, Sattr3, Diropargs3, StableHow, unstable, zero_fattr,
  zero_fh,
}

pub record PostOpFh3 : Type 0 where
  pub handle_follows : Bool
  pub handle : NfsFh3

-- `obj_wcc` is its part `After`.
pub record SetattrWccRes : Type 0 where
  pub status : Nfsstat3
  pub obj_wcc : PostOpAttr

pub record LookupAttrRes : Type 0 where
  pub status : Nfsstat3
  pub object : NfsFh3
  pub obj_attributes : PostOpAttr

pub record ReadlinkArgs : Type 0 where
  pub symlink : NfsFh3

pub record ReadlinkRes : Type 0 where
  pub status : Nfsstat3
  pub path : Bytes

-- `file_wcc` is its part `After`.
pub record WriteWccRes : Type 0 where
  pub status : Nfsstat3
  pub file_wcc : PostOpAttr
  pub count : ℕ
  pub committed : StableHow

abbrev pub Createmode3 : Type 0
Createmode3 = ℕ

abbrev pub unchecked : Createmode3
unchecked = 0

abbrev pub guarded : Createmode3
guarded = 1

abbrev pub exclusive : Createmode3
exclusive = 2

pub record Createhow3 : Type 0 where
  pub mode : Createmode3
  pub obj_attributes : Sattr3
  pub verf : Bytes

-- `location` is `Where`.
pub record CreateArgs : Type 0 where
  pub location : Diropargs3
  pub how : Createhow3

pub record MkdirArgs : Type 0 where
  pub location : Diropargs3
  pub attributes : Sattr3

pub record Symlinkdata3 : Type 0 where
  pub symlink_attributes : Sattr3
  pub symlink_data : Bytes

pub record SymlinkArgs : Type 0 where
  pub location : Diropargs3
  pub symlink : Symlinkdata3

-- The reply of CREATE, MKDIR and SYMLINK.
pub record CreateRes : Type 0 where
  pub status : Nfsstat3
  pub obj : PostOpFh3
  pub obj_attributes : PostOpAttr

pub record RemoveArgs : Type 0 where
  pub object : Diropargs3

pub record RenameArgs : Type 0 where
  pub source : Diropargs3
  pub target : Diropargs3

pub record ReaddirArgs : Type 0 where
  pub dir : NfsFh3
  pub cookie : ℕ
  pub cookieverf : Bytes
  pub count : ℕ

pub record Entryplus3 : Type 0 where
  pub fileid : ℕ
  pub name : Bytes
  pub cookie : ℕ
  pub name_attributes : PostOpAttr
  pub name_handle : PostOpFh3

pub record Dirlistplus3 : Type 0 where
  pub entries : List Entryplus3
  pub eof : Bool

pub record ReaddirplusArgs : Type 0 where
  pub dir : NfsFh3
  pub cookie : ℕ
  pub cookieverf : Bytes
  pub dircount : ℕ
  pub maxcount : ℕ

pub record ReaddirplusRes : Type 0 where
  pub status : Nfsstat3
  pub reply : Dirlistplus3

pub record FsinfoAllRes : Type 0 where
  pub status : Nfsstat3
  pub rtmax : ℕ
  pub rtpref : ℕ
  pub rtmult : ℕ
  pub wtmax : ℕ
  pub wtpref : ℕ
  pub wtmult : ℕ
  pub dtpref : ℕ
  pub maxfilesize : ℕ
  pub properties : ℕ

pub record PathconfRes : Type 0 where
  pub status : Nfsstat3
  pub linkmax : ℕ
  pub name_max : ℕ
  pub no_trunc : Bool
  pub case_preserving : Bool

-- The zero values of Go.
abbrev pub zero_post_op_attr : PostOpAttr
zero_post_op_attr = record { attributes_follow = false; attributes = zero_fattr }

abbrev pub zero_post_op_fh : PostOpFh3
zero_post_op_fh = record { handle_follows = false; handle = zero_fh }

abbrev pub zero_setattr_wcc : SetattrWccRes
zero_setattr_wcc = record { status = nfs3_ok; obj_wcc = zero_post_op_attr }

abbrev pub zero_lookup_attr : LookupAttrRes
zero_lookup_attr = record { status = nfs3_ok; object = zero_fh; obj_attributes = zero_post_op_attr }

abbrev pub zero_readlink : ReadlinkRes
zero_readlink = record { status = nfs3_ok; path = [] }

abbrev pub zero_write_wcc : WriteWccRes
zero_write_wcc = record {
  status = nfs3_ok;
  file_wcc = zero_post_op_attr;
  count = 0;
  committed = unstable;
}

abbrev pub zero_create : CreateRes
zero_create = record { status = nfs3_ok; obj = zero_post_op_fh; obj_attributes = zero_post_op_attr }

abbrev pub zero_dirlistplus : Dirlistplus3
zero_dirlistplus = record { entries = []; eof = false }
