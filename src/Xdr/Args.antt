-- ===== src/Xdr/Args.antt =====
-- nfstypes/nfs_xdr.go: the arguments of the procedures.
use go_nfsd.Prelude.{◌||◌, ◌==◌}
use go_nfsd.External.Xdr.{Xdr}
use go_nfsd.Programs.{pure, ◌>>=◌}
use go_nfsd.Nfstypes.Replies.{
  GetattrArgs, Sattrguard3, SetattrArgs, LookupArgs, ReadArgs, WriteArgs, CommitArgs,
}
use go_nfsd.Nfstypes.Procs.{
  ReadlinkArgs, unchecked, guarded, exclusive, Createhow3, CreateArgs, MkdirArgs, Symlinkdata3,
  SymlinkArgs, RemoveArgs, RenameArgs, ReaddirArgs, ReaddirplusArgs,
}
use go_nfsd.Nfstypes.Args.{
  nf3blk, nf3chr, nf3sock, nf3fifo, AccessArgs, Devicedata3, Mknoddata3, MknodArgs, LinkArgs,
  FsstatArgs, FsinfoArgs, PathconfArgs,
}
use go_nfsd.Xdr.{
  XdrProg, xdr_uint32, xdr_uint64, xdr_boolean, xdr_filename3, xdr_opaque, xdr_verf, xdr_case,
}
use go_nfsd.Xdr.Attributes.{xdr_specdata3, xdr_nfs_fh3, xdr_nfstime3, xdr_sattr3, xdr_diropargs3}

module _ (X : Xdr) where
  unfoldable pub xdr_getattr_args : GetattrArgs → XdrProg X GetattrArgs
  xdr_getattr_args v = do object ← xdr_nfs_fh3 X v.object; pure (record { object = object })

  unfoldable pub xdr_sattrguard3 : Sattrguard3 → XdrProg X Sattrguard3
  xdr_sattrguard3 v = do
    check ← xdr_boolean X v.check
    obj_ctime ← xdr_case X (check) (xdr_nfstime3 X) v.obj_ctime
    pure (record { check = check; obj_ctime = obj_ctime })

  unfoldable pub xdr_setattr_args : SetattrArgs → XdrProg X SetattrArgs
  xdr_setattr_args v = do
    object ← xdr_nfs_fh3 X v.object
    new_attributes ← xdr_sattr3 X v.new_attributes
    guard ← xdr_sattrguard3 v.guard
    pure (record { object = object; new_attributes = new_attributes; guard = guard })

  unfoldable pub xdr_lookup_args : LookupArgs → XdrProg X LookupArgs
  xdr_lookup_args v = do what ← xdr_diropargs3 X v.what; pure (record { what = what })

  unfoldable pub xdr_access_args : AccessArgs → XdrProg X AccessArgs
  xdr_access_args v = do
    object ← xdr_nfs_fh3 X v.object
    access ← xdr_uint32 X v.access
    pure (record { object = object; access = access })

  unfoldable pub xdr_readlink_args : ReadlinkArgs → XdrProg X ReadlinkArgs
  xdr_readlink_args v = do symlink ← xdr_nfs_fh3 X v.symlink; pure (record { symlink = symlink })

  unfoldable pub xdr_read_args : ReadArgs → XdrProg X ReadArgs
  xdr_read_args v = do
    file ← xdr_nfs_fh3 X v.file
    offset ← xdr_uint64 X v.offset
    count ← xdr_uint32 X v.count
    pure (record { file = file; offset = offset; count = count })

  unfoldable pub xdr_write_args : WriteArgs → XdrProg X WriteArgs
  xdr_write_args v = do
    file ← xdr_nfs_fh3 X v.file
    offset ← xdr_uint64 X v.offset
    count ← xdr_uint32 X v.count
    stable ← xdr_uint32 X v.stable
    bytes ← xdr_opaque X v.bytes
    pure (record { file = file; offset = offset; count = count; stable = stable; bytes = bytes })

  unfoldable pub xdr_createhow3 : Createhow3 → XdrProg X Createhow3
  xdr_createhow3 v = do
    mode ← xdr_uint32 X v.mode
    obj_attributes ←
        xdr_case X (mode == unchecked || mode == guarded) (xdr_sattr3 X) v.obj_attributes
    verf ← xdr_case X (mode == exclusive) (xdr_verf X) v.verf
    pure (record { mode = mode; obj_attributes = obj_attributes; verf = verf })

  unfoldable pub xdr_create_args : CreateArgs → XdrProg X CreateArgs
  xdr_create_args v = do
    location ← xdr_diropargs3 X v.location
    how ← xdr_createhow3 v.how
    pure (record { location = location; how = how })

  unfoldable pub xdr_mkdir_args : MkdirArgs → XdrProg X MkdirArgs
  xdr_mkdir_args v = do
    location ← xdr_diropargs3 X v.location
    attributes ← xdr_sattr3 X v.attributes
    pure (record { location = location; attributes = attributes })

  unfoldable pub xdr_symlinkdata3 : Symlinkdata3 → XdrProg X Symlinkdata3
  xdr_symlinkdata3 v = do
    symlink_attributes ← xdr_sattr3 X v.symlink_attributes
    symlink_data ← xdr_filename3 X v.symlink_data
    pure (record { symlink_attributes = symlink_attributes; symlink_data = symlink_data })

  unfoldable pub xdr_symlink_args : SymlinkArgs → XdrProg X SymlinkArgs
  xdr_symlink_args v = do
    location ← xdr_diropargs3 X v.location
    symlink ← xdr_symlinkdata3 v.symlink
    pure (record { location = location; symlink = symlink })

  unfoldable pub xdr_devicedata3 : Devicedata3 → XdrProg X Devicedata3
  xdr_devicedata3 v = do
    dev_attributes ← xdr_sattr3 X v.dev_attributes
    spec ← xdr_specdata3 X v.spec
    pure (record { dev_attributes = dev_attributes; spec = spec })

  unfoldable pub xdr_mknoddata3 : Mknoddata3 → XdrProg X Mknoddata3
  xdr_mknoddata3 v = do
    ftype ← xdr_uint32 X v.ftype
    device ← xdr_case X (ftype == nf3chr || ftype == nf3blk) xdr_devicedata3 v.device
    pipe_attributes ←
        xdr_case X (ftype == nf3sock || ftype == nf3fifo) (xdr_sattr3 X) v.pipe_attributes
    pure (record { ftype = ftype; device = device; pipe_attributes = pipe_attributes })

  unfoldable pub xdr_mknod_args : MknodArgs → XdrProg X MknodArgs
  xdr_mknod_args v = do
    location ← xdr_diropargs3 X v.location
    what ← xdr_mknoddata3 v.what
    pure (record { location = location; what = what })

  -- Of REMOVE and of RMDIR.
  unfoldable pub xdr_remove_args : RemoveArgs → XdrProg X RemoveArgs
  xdr_remove_args v = do object ← xdr_diropargs3 X v.object; pure (record { object = object })

  unfoldable pub xdr_rename_args : RenameArgs → XdrProg X RenameArgs
  xdr_rename_args v = do
    source ← xdr_diropargs3 X v.source
    target ← xdr_diropargs3 X v.target
    pure (record { source = source; target = target })

  unfoldable pub xdr_link_args : LinkArgs → XdrProg X LinkArgs
  xdr_link_args v = do
    file ← xdr_nfs_fh3 X v.file
    link ← xdr_diropargs3 X v.link
    pure (record { file = file; link = link })

  unfoldable pub xdr_readdir_args : ReaddirArgs → XdrProg X ReaddirArgs
  xdr_readdir_args v = do
    dir ← xdr_nfs_fh3 X v.dir
    cookie ← xdr_uint64 X v.cookie
    cookieverf ← xdr_verf X v.cookieverf
    count ← xdr_uint32 X v.count
    pure (record { dir = dir; cookie = cookie; cookieverf = cookieverf; count = count })

  unfoldable pub xdr_readdirplus_args : ReaddirplusArgs → XdrProg X ReaddirplusArgs
  xdr_readdirplus_args v = do
    dir ← xdr_nfs_fh3 X v.dir
    cookie ← xdr_uint64 X v.cookie
    cookieverf ← xdr_verf X v.cookieverf
    dircount ← xdr_uint32 X v.dircount
    maxcount ← xdr_uint32 X v.maxcount
    pure (record {
      dir = dir;
      cookie = cookie;
      cookieverf = cookieverf;
      dircount = dircount;
      maxcount = maxcount;
    })

  unfoldable pub xdr_fsstat_args : FsstatArgs → XdrProg X FsstatArgs
  xdr_fsstat_args v = do fsroot ← xdr_nfs_fh3 X v.fsroot; pure (record { fsroot = fsroot })

  unfoldable pub xdr_fsinfo_args : FsinfoArgs → XdrProg X FsinfoArgs
  xdr_fsinfo_args v = do fsroot ← xdr_nfs_fh3 X v.fsroot; pure (record { fsroot = fsroot })

  unfoldable pub xdr_pathconf_args : PathconfArgs → XdrProg X PathconfArgs
  xdr_pathconf_args v = do object ← xdr_nfs_fh3 X v.object; pure (record { object = object })

  unfoldable pub xdr_commit_args : CommitArgs → XdrProg X CommitArgs
  xdr_commit_args v = do
    file ← xdr_nfs_fh3 X v.file
    offset ← xdr_uint64 X v.offset
    count ← xdr_uint32 X v.count
    pure (record { file = file; offset = offset; count = count })
