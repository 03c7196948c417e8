-- ===== src/Xdr/Travels/Args.antt =====
-- nfstypes/nfs_xdr.go: the arguments of the procedures: what fits a message arrives.
use go_nfsd.Prelude.{◌||◌, ◌==◌}
use go_nfsd.External.Xdr.{Xdr, XdrLaws}
use go_nfsd.Nfstypes.{zero_time}
use go_nfsd.Nfstypes.Replies.{
  GetattrArgs, Sattrguard3, SetattrArgs, LookupArgs, ReadArgs, WriteArgs, CommitArgs,
}
use go_nfsd.Nfstypes.Procs.{
  ReadlinkArgs, unchecked, guarded, exclusive, Createhow3, CreateArgs, MkdirArgs, Symlinkdata3,
  SymlinkArgs, RemoveArgs, RenameArgs, ReaddirArgs, ReaddirplusArgs,
}
use go_nfsd.Nfstypes.Args.{
  nf3blk, nf3chr, nf3sock, nf3fifo, AccessArgs, Devicedata3, Mknoddata3, MknodArgs, LinkArgs,
  FsstatArgs, FsinfoArgs, PathconfArgs,
}
use go_nfsd.Nfstypes.Zeros.{
  zero_verf, zero_sattr3, zero_getattr_args, zero_sattrguard3, zero_setattr_args, zero_lookup_args,
  zero_access_args, zero_readlink_args, zero_read_args, zero_write_args, zero_createhow3,
  zero_create_args, zero_mkdir_args, zero_symlinkdata3, zero_symlink_args, zero_devicedata3,
  zero_mknoddata3, zero_mknod_args, zero_remove_args, zero_rename_args, zero_link_args,
  zero_readdir_args, zero_readdirplus_args, zero_fsstat_args, zero_fsinfo_args, zero_pathconf_args,
  zero_commit_args,
}
use go_nfsd.Xdr.{xdr_verf}
use go_nfsd.Xdr.Sends.{
  Travels, Sends-pure, Sends-bind, uint32-Travels, uint64-Travels, boolean-Travels,
  filename3-Travels, opaque-Travels, verf-Travels, case-Travels,
}
use go_nfsd.Xdr.Travels.Attributes.{
  specdata3-Travels, nfs_fh3-Travels, nfstime3-Travels, sattr3-Travels, diropargs3-Travels,
}
use go_nfsd.Xdr.Attributes.{xdr_nfstime3, xdr_sattr3}
use go_nfsd.Xdr.Args.{
  xdr_getattr_args, xdr_sattrguard3, xdr_setattr_args, xdr_lookup_args, xdr_access_args,
  xdr_readlink_args, xdr_read_args, xdr_write_args, xdr_createhow3, xdr_create_args, xdr_mkdir_args,
  xdr_symlinkdata3, xdr_symlink_args, xdr_devicedata3, xdr_mknoddata3, xdr_mknod_args,
  xdr_remove_args, xdr_rename_args, xdr_link_args, xdr_readdir_args, xdr_readdirplus_args,
  xdr_fsstat_args, xdr_fsinfo_args, xdr_pathconf_args, xdr_commit_args,
}
use go_nfsd.Xdr.Travels.ArgsFit.{
  FitsGetattrArgs, FitsSattrguard3, FitsSetattrArgs, FitsLookupArgs, FitsAccessArgs,
  FitsReadlinkArgs, FitsReadArgs, FitsWriteArgs, FitsCreatehow3, FitsCreateArgs, FitsMkdirArgs,
  FitsSymlinkdata3, FitsSymlinkArgs, FitsDevicedata3, FitsMknoddata3, FitsMknodArgs, FitsRemoveArgs,
  FitsRenameArgs, FitsLinkArgs, FitsReaddirArgs, FitsReaddirplusArgs, FitsFsstatArgs,
  FitsFsinfoArgs, FitsPathconfArgs, FitsCommitArgs,
}

module _ (X : Xdr) (L : XdrLaws X) where
  pub getattr_args-Travels :
      (v : GetattrArgs) → FitsGetattrArgs v → Travels X L (xdr_getattr_args X) zero_getattr_args v
  unfolding xdr_getattr_args
  getattr_args-Travels v fits =
      Sends-bind X L _ _ (nfs_fh3-Travels X L _ fits.object) (Sends-pure X L _)

  pub sattrguard3-Travels :
      (v : Sattrguard3) → FitsSattrguard3 v → Travels X L (xdr_sattrguard3 X) zero_sattrguard3 v
  unfolding xdr_sattrguard3
  sattrguard3-Travels v fits = Sends-bind X L _ _ (boolean-Travels X L _ _) (
      Sends-bind X L _ _
        (case-Travels X L (v.check) (xdr_nfstime3 X) zero_time _
          (λ h. nfstime3-Travels X L _ (fits.obj_ctime.0 h)) fits.obj_ctime.1)
        (Sends-pure X L _))

  pub setattr_args-Travels :
      (v : SetattrArgs) → FitsSetattrArgs v → Travels X L (xdr_setattr_args X) zero_setattr_args v
  unfolding xdr_setattr_args
  setattr_args-Travels v fits = Sends-bind X L _ _ (nfs_fh3-Travels X L _ fits.object) (
      Sends-bind X L _ _ (sattr3-Travels X L _ fits.new_attributes)
        (Sends-bind X L _ _ (sattrguard3-Travels _ fits.guard) (Sends-pure X L _)))

  pub lookup_args-Travels :
      (v : LookupArgs) → FitsLookupArgs v → Travels X L (xdr_lookup_args X) zero_lookup_args v
  unfolding xdr_lookup_args
  lookup_args-Travels v fits =
      Sends-bind X L _ _ (diropargs3-Travels X L _ fits.what) (Sends-pure X L _)

  pub access_args-Travels :
      (v : AccessArgs) → FitsAccessArgs v → Travels X L (xdr_access_args X) zero_access_args v
  unfolding xdr_access_args
  access_args-Travels v fits =
      Sends-bind X L _ _ (nfs_fh3-Travels X L _ fits.object)
        (Sends-bind X L _ _ (uint32-Travels X L _ _ fits.access) (Sends-pure X L _))

  pub readlink_args-Travels :
      (v : ReadlinkArgs)
      → FitsReadlinkArgs v
      → Travels X L (xdr_readlink_args X) zero_readlink_args v
  unfolding xdr_readlink_args
  readlink_args-Travels v fits =
      Sends-bind X L _ _ (nfs_fh3-Travels X L _ fits.symlink) (Sends-pure X L _)

  pub read_args-Travels :
      (v : ReadArgs) → FitsReadArgs v → Travels X L (xdr_read_args X) zero_read_args v
  unfolding xdr_read_args
  read_args-Travels v fits = Sends-bind X L _ _ (nfs_fh3-Travels X L _ fits.file) (
      Sends-bind X L _ _ (uint64-Travels X L _ _ fits.offset)
        (Sends-bind X L _ _ (uint32-Travels X L _ _ fits.count) (Sends-pure X L _)))

  pub write_args-Travels :
      (v : WriteArgs) → FitsWriteArgs v → Travels X L (xdr_write_args X) zero_write_args v
  unfolding xdr_write_args
  write_args-Travels v fits = Sends-bind X L _ _ (nfs_fh3-Travels X L _ fits.file) (
      Sends-bind X L _ _ (uint64-Travels X L _ _ fits.offset) (
        Sends-bind X L _ _ (uint32-Travels X L _ _ fits.count) (
          Sends-bind X L _ _ (uint32-Travels X L _ _ fits.stable)
            (Sends-bind X L _ _ (opaque-Travels X L _ _ fits.bytes) (Sends-pure X L _)))))

  pub createhow3-Travels :
      (v : Createhow3) → FitsCreatehow3 v → Travels X L (xdr_createhow3 X) zero_createhow3 v
  unfolding xdr_createhow3
  createhow3-Travels v fits = Sends-bind X L _ _ (uint32-Travels X L _ _ fits.mode) (
      Sends-bind X L _ _
        (case-Travels X L (v.mode == unchecked || v.mode == guarded) (xdr_sattr3 X) zero_sattr3 _
          (λ h. sattr3-Travels X L _ (fits.obj_attributes.0 h)) fits.obj_attributes.1)
        (Sends-bind X L _ _
          (case-Travels X L (v.mode == exclusive) (xdr_verf X) zero_verf _
            (λ h. verf-Travels X L _ _ (fits.verf.0 h)) fits.verf.1)
          (Sends-pure X L _)))

  pub create_args-Travels :
      (v : CreateArgs) → FitsCreateArgs v → Travels X L (xdr_create_args X) zero_create_args v
  unfolding xdr_create_args
  create_args-Travels v fits =
      Sends-bind X L _ _ (diropargs3-Travels X L _ fits.location)
        (Sends-bind X L _ _ (createhow3-Travels _ fits.how) (Sends-pure X L _))

  pub mkdir_args-Travels :
      (v : MkdirArgs) → FitsMkdirArgs v → Travels X L (xdr_mkdir_args X) zero_mkdir_args v
  unfolding xdr_mkdir_args
  mkdir_args-Travels v fits =
      Sends-bind X L _ _ (diropargs3-Travels X L _ fits.location)
        (Sends-bind X L _ _ (sattr3-Travels X L _ fits.attributes) (Sends-pure X L _))

  pub symlinkdata3-Travels :
      (v : Symlinkdata3) → FitsSymlinkdata3 v → Travels X L (xdr_symlinkdata3 X) zero_symlinkdata3 v
  unfolding xdr_symlinkdata3
  symlinkdata3-Travels v fits =
      Sends-bind X L _ _ (sattr3-Travels X L _ fits.symlink_attributes)
        (Sends-bind X L _ _ (filename3-Travels X L _ _ fits.symlink_data) (Sends-pure X L _))

  pub symlink_args-Travels :
      (v : SymlinkArgs) → FitsSymlinkArgs v → Travels X L (xdr_symlink_args X) zero_symlink_args v
  unfolding xdr_symlink_args
  symlink_args-Travels v fits =
      Sends-bind X L _ _ (diropargs3-Travels X L _ fits.location)
        (Sends-bind X L _ _ (symlinkdata3-Travels _ fits.symlink) (Sends-pure X L _))

  pub devicedata3-Travels :
      (v : Devicedata3) → FitsDevicedata3 v → Travels X L (xdr_devicedata3 X) zero_devicedata3 v
  unfolding xdr_devicedata3
  devicedata3-Travels v fits =
      Sends-bind X L _ _ (sattr3-Travels X L _ fits.dev_attributes)
        (Sends-bind X L _ _ (specdata3-Travels X L _ fits.spec) (Sends-pure X L _))

  pub mknoddata3-Travels :
      (v : Mknoddata3) → FitsMknoddata3 v → Travels X L (xdr_mknoddata3 X) zero_mknoddata3 v
  unfolding xdr_mknoddata3
  mknoddata3-Travels v fits = Sends-bind X L _ _ (uint32-Travels X L _ _ fits.ftype) (
      Sends-bind X L _ _
        (case-Travels X L (v.ftype == nf3chr || v.ftype == nf3blk) (xdr_devicedata3 X)
          zero_devicedata3 _ (λ h. devicedata3-Travels _ (fits.device.0 h)) fits.device.1)
        (Sends-bind X L _ _
          (case-Travels X L (v.ftype == nf3sock || v.ftype == nf3fifo) (xdr_sattr3 X) zero_sattr3 _
            (λ h. sattr3-Travels X L _ (fits.pipe_attributes.0 h)) fits.pipe_attributes.1)
          (Sends-pure X L _)))

  pub mknod_args-Travels :
      (v : MknodArgs) → FitsMknodArgs v → Travels X L (xdr_mknod_args X) zero_mknod_args v
  unfolding xdr_mknod_args
  mknod_args-Travels v fits =
      Sends-bind X L _ _ (diropargs3-Travels X L _ fits.location)
        (Sends-bind X L _ _ (mknoddata3-Travels _ fits.what) (Sends-pure X L _))

  pub remove_args-Travels :
      (v : RemoveArgs) → FitsRemoveArgs v → Travels X L (xdr_remove_args X) zero_remove_args v
  unfolding xdr_remove_args
  remove_args-Travels v fits =
      Sends-bind X L _ _ (diropargs3-Travels X L _ fits.object) (Sends-pure X L _)

  pub rename_args-Travels :
      (v : RenameArgs) → FitsRenameArgs v → Travels X L (xdr_rename_args X) zero_rename_args v
  unfolding xdr_rename_args
  rename_args-Travels v fits =
      Sends-bind X L _ _ (diropargs3-Travels X L _ fits.source)
        (Sends-bind X L _ _ (diropargs3-Travels X L _ fits.target) (Sends-pure X L _))

  pub link_args-Travels :
      (v : LinkArgs) → FitsLinkArgs v → Travels X L (xdr_link_args X) zero_link_args v
  unfolding xdr_link_args
  link_args-Travels v fits =
      Sends-bind X L _ _ (nfs_fh3-Travels X L _ fits.file)
        (Sends-bind X L _ _ (diropargs3-Travels X L _ fits.link) (Sends-pure X L _))

  pub readdir_args-Travels :
      (v : ReaddirArgs) → FitsReaddirArgs v → Travels X L (xdr_readdir_args X) zero_readdir_args v
  unfolding xdr_readdir_args
  readdir_args-Travels v fits = Sends-bind X L _ _ (nfs_fh3-Travels X L _ fits.dir) (
      Sends-bind X L _ _ (uint64-Travels X L _ _ fits.cookie) (
        Sends-bind X L _ _ (verf-Travels X L _ _ fits.cookieverf)
          (Sends-bind X L _ _ (uint32-Travels X L _ _ fits.count) (Sends-pure X L _))))

  pub readdirplus_args-Travels :
      (v : ReaddirplusArgs)
      → FitsReaddirplusArgs v
      → Travels X L (xdr_readdirplus_args X) zero_readdirplus_args v
  unfolding xdr_readdirplus_args
  readdirplus_args-Travels v fits = Sends-bind X L _ _ (nfs_fh3-Travels X L _ fits.dir) (
      Sends-bind X L _ _ (uint64-Travels X L _ _ fits.cookie) (
        Sends-bind X L _ _ (verf-Travels X L _ _ fits.cookieverf) (
          Sends-bind X L _ _ (uint32-Travels X L _ _ fits.dircount)
            (Sends-bind X L _ _ (uint32-Travels X L _ _ fits.maxcount) (Sends-pure X L _)))))

  pub fsstat_args-Travels :
      (v : FsstatArgs) → FitsFsstatArgs v → Travels X L (xdr_fsstat_args X) zero_fsstat_args v
  unfolding xdr_fsstat_args
  fsstat_args-Travels v fits =
      Sends-bind X L _ _ (nfs_fh3-Travels X L _ fits.fsroot) (Sends-pure X L _)

  pub fsinfo_args-Travels :
      (v : FsinfoArgs) → FitsFsinfoArgs v → Travels X L (xdr_fsinfo_args X) zero_fsinfo_args v
  unfolding xdr_fsinfo_args
  fsinfo_args-Travels v fits =
      Sends-bind X L _ _ (nfs_fh3-Travels X L _ fits.fsroot) (Sends-pure X L _)

  pub pathconf_args-Travels :
      (v : PathconfArgs)
      → FitsPathconfArgs v
      → Travels X L (xdr_pathconf_args X) zero_pathconf_args v
  unfolding xdr_pathconf_args
  pathconf_args-Travels v fits =
      Sends-bind X L _ _ (nfs_fh3-Travels X L _ fits.object) (Sends-pure X L _)

  pub commit_args-Travels :
      (v : CommitArgs) → FitsCommitArgs v → Travels X L (xdr_commit_args X) zero_commit_args v
  unfolding xdr_commit_args
  commit_args-Travels v fits = Sends-bind X L _ _ (nfs_fh3-Travels X L _ fits.file) (
      Sends-bind X L _ _ (uint64-Travels X L _ _ fits.offset)
        (Sends-bind X L _ _ (uint32-Travels X L _ _ fits.count) (Sends-pure X L _)))
