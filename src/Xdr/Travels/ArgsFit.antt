-- ===== src/Xdr/Travels/ArgsFit.antt =====
-- nfstypes/nfs_xdr.go: which arguments of the procedures fit in a message.
use go_nfsd.Prelude.{◌<◌, ◌^◌, ◌≡◌, ◌||◌, ◌==◌, length}
use go_nfsd.Nfstypes.{zero_time}
use go_nfsd.Nfstypes.Replies.{
  GetattrArgs, Sattrguard3, SetattrArgs, LookupArgs, ReadArgs, WriteArgs, CommitArgs,
}
use go_nfsd.Nfstypes.Procs.{
  ReadlinkArgs, unchecked, guarded, exclusive, Createhow3, CreateArgs, MkdirArgs, Symlinkdata3,
  SymlinkArgs, RemoveArgs, RenameArgs, ReaddirArgs, ReaddirplusArgs,
}
use go_nfsd.Nfstypes.Args.{
  nf3blk, nf3chr, nf3sock, nf3fifo, AccessArgs, Devicedata3, Mknoddata3, MknodArgs, LinkArgs,
  FsstatArgs, FsinfoArgs, PathconfArgs,
}
use go_nfsd.Nfstypes.Zeros.{zero_verf, zero_sattr3, zero_devicedata3}
use go_nfsd.Xdr.Sends.{Arm}
use go_nfsd.Xdr.Travels.Attributes.{
  FitsSpecdata3, FitsNfsFh3, FitsNfstime3, FitsSattr3, FitsDiropargs3,
}

pub record FitsGetattrArgs (v : GetattrArgs) : Type 0 where
  pub object : FitsNfsFh3 v.object

pub record FitsSattrguard3 (v : Sattrguard3) : Type 0 where
  pub obj_ctime : Arm (v.check) (FitsNfstime3 v.obj_ctime) (v.obj_ctime ≡ zero_time)

pub record FitsSetattrArgs (v : SetattrArgs) : Type 0 where
  pub object : FitsNfsFh3 v.object
  pub new_attributes : FitsSattr3 v.new_attributes
  pub guard : FitsSattrguard3 v.guard

pub record FitsLookupArgs (v : LookupArgs) : Type 0 where
  pub what : FitsDiropargs3 v.what

pub record FitsAccessArgs (v : AccessArgs) : Type 0 where
  pub object : FitsNfsFh3 v.object
  pub access : v.access < 2 ^ 32

pub record FitsReadlinkArgs (v : ReadlinkArgs) : Type 0 where
  pub symlink : FitsNfsFh3 v.symlink

pub record FitsReadArgs (v : ReadArgs) : Type 0 where
  pub file : FitsNfsFh3 v.file
  pub offset : v.offset < 2 ^ 64
  pub count : v.count < 2 ^ 32

pub record FitsWriteArgs (v : WriteArgs) : Type 0 where
  pub file : FitsNfsFh3 v.file
  pub offset : v.offset < 2 ^ 64
  pub count : v.count < 2 ^ 32
  pub stable : v.stable < 2 ^ 32
  pub bytes : length v.bytes < 2 ^ 32

pub record FitsCreatehow3 (v : Createhow3) : Type 0 where
  pub mode : v.mode < 2 ^ 32
  pub obj_attributes :
      Arm
        (v.mode == unchecked || v.mode == guarded)
        (FitsSattr3 v.obj_attributes)
        (v.obj_attributes ≡ zero_sattr3)
  pub verf : Arm (v.mode == exclusive) (8 ≡ length v.verf) (v.verf ≡ zero_verf)

pub record FitsCreateArgs (v : CreateArgs) : Type 0 where
  pub location : FitsDiropargs3 v.location
  pub how : FitsCreatehow3 v.how

pub record FitsMkdirArgs (v : MkdirArgs) : Type 0 where
  pub location : FitsDiropargs3 v.location
  pub attributes : FitsSattr3 v.attributes

pub record FitsSymlinkdata3 (v : Symlinkdata3) : Type 0 where
  pub symlink_attributes : FitsSattr3 v.symlink_attributes
  pub symlink_data : length v.symlink_data < 2 ^ 32

pub record FitsSymlinkArgs (v : SymlinkArgs) : Type 0 where
  pub location : FitsDiropargs3 v.location
  pub symlink : FitsSymlinkdata3 v.symlink

pub record FitsDevicedata3 (v : Devicedata3) : Type 0 where
  pub dev_attributes : FitsSattr3 v.dev_attributes
  pub spec : FitsSpecdata3 v.spec

pub record FitsMknoddata3 (v : Mknoddata3) : Type 0 where
  pub ftype : v.ftype < 2 ^ 32
  pub device :
      Arm
        (v.ftype == nf3chr || v.ftype == nf3blk)
        (FitsDevicedata3 v.device)
        (v.device ≡ zero_devicedata3)
  pub pipe_attributes :
      Arm
        (v.ftype == nf3sock || v.ftype == nf3fifo)
        (FitsSattr3 v.pipe_attributes)
        (v.pipe_attributes ≡ zero_sattr3)

pub record FitsMknodArgs (v : MknodArgs) : Type 0 where
  pub location : FitsDiropargs3 v.location
  pub what : FitsMknoddata3 v.what

pub record FitsRemoveArgs (v : RemoveArgs) : Type 0 where
  pub object : FitsDiropargs3 v.object

pub record FitsRenameArgs (v : RenameArgs) : Type 0 where
  pub source : FitsDiropargs3 v.source
  pub target : FitsDiropargs3 v.target

pub record FitsLinkArgs (v : LinkArgs) : Type 0 where
  pub file : FitsNfsFh3 v.file
  pub link : FitsDiropargs3 v.link

pub record FitsReaddirArgs (v : ReaddirArgs) : Type 0 where
  pub dir : FitsNfsFh3 v.dir
  pub cookie : v.cookie < 2 ^ 64
  pub cookieverf : 8 ≡ length v.cookieverf
  pub count : v.count < 2 ^ 32

pub record FitsReaddirplusArgs (v : ReaddirplusArgs) : Type 0 where
  pub dir : FitsNfsFh3 v.dir
  pub cookie : v.cookie < 2 ^ 64
  pub cookieverf : 8 ≡ length v.cookieverf
  pub dircount : v.dircount < 2 ^ 32
  pub maxcount : v.maxcount < 2 ^ 32

pub record FitsFsstatArgs (v : FsstatArgs) : Type 0 where
  pub fsroot : FitsNfsFh3 v.fsroot

pub record FitsFsinfoArgs (v : FsinfoArgs) : Type 0 where
  pub fsroot : FitsNfsFh3 v.fsroot

pub record FitsPathconfArgs (v : PathconfArgs) : Type 0 where
  pub object : FitsNfsFh3 v.object

pub record FitsCommitArgs (v : CommitArgs) : Type 0 where
  pub file : FitsNfsFh3 v.file
  pub offset : v.offset < 2 ^ 64
  pub count : v.count < 2 ^ 32
