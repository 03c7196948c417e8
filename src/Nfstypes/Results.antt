-- ===== src/Nfstypes/Results.antt =====
-- nfstypes/nfs_types.go: the whole results of the procedures, with the fields that no handler sets. A
-- struct of one field is that field.
use go_nfsd.Prelude.{ℕ, Bool}
use go_nfsd.Nfstypes.Basic.{Bytes, NfsFh3, Nfstime3, PostOpAttr, WccData}
use go_nfsd.Nfstypes.Replies.{Dirlist3}
use go_nfsd.Nfstypes.Procs.{PostOpFh3, Dirlistplus3}

-- `GETATTR3res` and the other results: the status, and the part that goes with it. The status is a
-- uint32.
pub record ResOf (Ok Fail : Type 0) : Type 0 where
  pub status : ℕ
  pub resok : Ok
  pub resfail : Fail

pub record LookupResok : Type 0 where
  pub object : NfsFh3
  pub obj_attributes : PostOpAttr
  pub dir_attributes : PostOpAttr

pub record AccessResok : Type 0 where
  pub obj_attributes : PostOpAttr
  pub access : ℕ

pub record ReadlinkResok : Type 0 where
  pub symlink_attributes : PostOpAttr
  pub path : Bytes

pub record ReadResok : Type 0 where
  pub file_attributes : PostOpAttr
  pub count : ℕ
  pub eof : Bool
  pub bytes : Bytes

pub record WriteResok : Type 0 where
  pub file_wcc : WccData
  pub count : ℕ
  pub committed : ℕ
  pub verf : Bytes

-- Of CREATE, MKDIR, SYMLINK and MKNOD.
pub record CreateResok : Type 0 where
  pub obj : PostOpFh3
  pub obj_attributes : PostOpAttr
  pub dir_wcc : WccData

-- `RENAME3resok` and `RENAME3resfail`.
pub record RenameWcc : Type 0 where
  pub fromdir_wcc : WccData
  pub todir_wcc : WccData

-- `LINK3resok` and `LINK3resfail`.
pub record LinkWcc : Type 0 where
  pub file_attributes : PostOpAttr
  pub linkdir_wcc : WccData

pub record FsstatResok : Type 0 where
  pub obj_attributes : PostOpAttr
  pub tbytes : ℕ
  pub fbytes : ℕ
  pub abytes : ℕ
  pub tfiles : ℕ
  pub ffiles : ℕ
  pub afiles : ℕ
  pub invarsec : ℕ

pub record FsinfoResok : Type 0 where
  pub obj_attributes : PostOpAttr
  pub rtmax : ℕ
  pub rtpref : ℕ
  pub rtmult : ℕ
  pub wtmax : ℕ
  pub wtpref : ℕ
  pub wtmult : ℕ
  pub dtpref : ℕ
  pub maxfilesize : ℕ
  pub time_delta : Nfstime3
  pub properties : ℕ

pub record PathconfResok : Type 0 where
  pub obj_attributes : PostOpAttr
  pub linkmax : ℕ
  pub name_max : ℕ
  pub no_trunc : Bool
  pub chown_restricted : Bool
  pub case_insensitive : Bool
  pub case_preserving : Bool

pub record CommitResok : Type 0 where
  pub file_wcc : WccData
  pub verf : Bytes

pub record ReaddirResok : Type 0 where
  pub dir_attributes : PostOpAttr
  pub cookieverf : Bytes
  pub reply : Dirlist3

pub record ReaddirplusResok : Type 0 where
  pub dir_attributes : PostOpAttr
  pub cookieverf : Bytes
  pub reply : Dirlistplus3
