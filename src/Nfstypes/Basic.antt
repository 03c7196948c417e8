-- ===== src/Nfstypes/Basic.antt =====
-- nfstypes/nfs_types.go: status codes, file types, attributes and their setters.
use go_nfsd.Prelude.{ℕ, Bool, List, []}

abbrev pub Bytes : Type 0
Bytes = List ℕ

pub data Nfsstat3 : Type 0 where
  nfs3_ok nfs3err_perm nfs3err_noent nfs3err_io nfs3err_nxio nfs3err_acces : Nfsstat3
  nfs3err_exist nfs3err_xdev nfs3err_nodev nfs3err_notdir nfs3err_isdir : Nfsstat3
  nfs3err_inval nfs3err_fbig nfs3err_nospc nfs3err_rofs nfs3err_mlink : Nfsstat3
  nfs3err_nametoolong nfs3err_notempty nfs3err_dquot nfs3err_stale nfs3err_remote : Nfsstat3
  nfs3err_badhandle nfs3err_not_sync nfs3err_bad_cookie nfs3err_notsupp : Nfsstat3
  nfs3err_toosmall nfs3err_serverfault nfs3err_badtype nfs3err_jukebox : Nfsstat3

-- `Ftype3` is a uint32 that the code stores on disk, and `Time_how`, `Stable_how` and `Createmode3` are
-- uint32 that a client may send: they stay numbers.
abbrev pub nf3reg : ℕ
nf3reg = 1

abbrev pub nf3dir : ℕ
nf3dir = 2

abbrev pub nf3lnk : ℕ
nf3lnk = 5

pub record Specdata3 : Type 0 where
  pub specdata1 : ℕ
  pub specdata2 : ℕ

pub record NfsFh3 : Type 0 where
  pub bytes : Bytes

pub record Nfstime3 : Type 0 where
  pub seconds : ℕ
  pub nseconds : ℕ

pub record Fattr3 : Type 0 where
  pub ftype : ℕ
  pub mode : ℕ
  pub nlink : ℕ
  pub uid : ℕ
  pub gid : ℕ
  pub size : ℕ
  pub used : ℕ
  pub rdev : Specdata3
  pub fsid : ℕ
  pub fileid : ℕ
  pub atime : Nfstime3
  pub mtime : Nfstime3
  pub ctime : Nfstime3

pub record PostOpAttr : Type 0 where
  pub attributes_follow : Bool
  pub attributes : Fattr3

pub record WccAttr : Type 0 where
  pub size : ℕ
  pub mtime : Nfstime3
  pub ctime : Nfstime3

pub record PreOpAttr : Type 0 where
  pub attributes_follow : Bool
  pub attributes : WccAttr

pub record WccData : Type 0 where
  pub before : PreOpAttr
  pub after : PostOpAttr

abbrev pub TimeHow : Type 0
TimeHow = ℕ

abbrev pub dont_change : TimeHow
dont_change = 0

abbrev pub set_to_server_time : TimeHow
set_to_server_time = 1

abbrev pub set_to_client_time : TimeHow
set_to_client_time = 2

pub record SetNum3 : Type 0 where
  pub set_it : Bool
  pub value : ℕ

pub record SetTime : Type 0 where
  pub set_it : TimeHow
  pub time : Nfstime3

pub record Sattr3 : Type 0 where
  pub mode : SetNum3
  pub uid : SetNum3
  pub gid : SetNum3
  pub size : SetNum3
  pub atime : SetTime
  pub mtime : SetTime

pub record Diropargs3 : Type 0 where
  pub dir : NfsFh3
  pub name : Bytes

abbrev pub StableHow : Type 0
StableHow = ℕ

abbrev pub unstable : StableHow
unstable = 0

abbrev pub data_sync : StableHow
data_sync = 1

abbrev pub file_sync : StableHow
file_sync = 2

-- The zero values of Go.
abbrev pub zero_time : Nfstime3
zero_time = record { seconds = 0; nseconds = 0 }

abbrev pub zero_specdata : Specdata3
zero_specdata = record { specdata1 = 0; specdata2 = 0 }

abbrev pub zero_fattr : Fattr3
zero_fattr = record {
  ftype = 0;
  mode = 0;
  nlink = 0;
  uid = 0;
  gid = 0;
  size = 0;
  used = 0;
  rdev = zero_specdata;
  fsid = 0;
  fileid = 0;
  atime = zero_time;
  mtime = zero_time;
  ctime = zero_time;
}

abbrev pub zero_fh : NfsFh3
zero_fh = record { bytes = [] }
