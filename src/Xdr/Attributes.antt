-- ===== src/Xdr/Attributes.antt =====
-- nfstypes/nfs_xdr.go: the attributes of files, their setters, and names in directories.
use go_nfsd.Prelude.{◌==◌}
use go_nfsd.External.Xdr.{Xdr}
use go_nfsd.Programs.{pure, ◌>>=◌}
use go_nfsd.Nfstypes.{
  Specdata3, NfsFh3, Nfstime3, Fattr3, PostOpAttr, WccAttr, PreOpAttr, WccData, set_to_client_time,
  SetNum3, SetTime, Sattr3, Diropargs3,
}
use go_nfsd.Nfstypes.Procs.{PostOpFh3}
use go_nfsd.Xdr.{
  XdrProg, xdr_uint32, xdr_uint64, xdr_boolean, xdr_filename3, xdr_fh_bytes, xdr_case,
}

module _ (X : Xdr) where
  unfoldable pub xdr_specdata3 : Specdata3 → XdrProg X Specdata3
  xdr_specdata3 v = do
    specdata1 ← xdr_uint32 X v.specdata1
    specdata2 ← xdr_uint32 X v.specdata2
    pure (record { specdata1 = specdata1; specdata2 = specdata2 })

  unfoldable pub xdr_nfs_fh3 : NfsFh3 → XdrProg X NfsFh3
  xdr_nfs_fh3 v = do bytes ← xdr_fh_bytes X v.bytes; pure (record { bytes = bytes })

  unfoldable pub xdr_nfstime3 : Nfstime3 → XdrProg X Nfstime3
  xdr_nfstime3 v = do
    seconds ← xdr_uint32 X v.seconds
    nseconds ← xdr_uint32 X v.nseconds
    pure (record { seconds = seconds; nseconds = nseconds })

  unfoldable pub xdr_fattr3 : Fattr3 → XdrProg X Fattr3
  xdr_fattr3 v = do
    ftype ← xdr_uint32 X v.ftype
    mode ← xdr_uint32 X v.mode
    nlink ← xdr_uint32 X v.nlink
    uid ← xdr_uint32 X v.uid
    gid ← xdr_uint32 X v.gid
    size ← xdr_uint64 X v.size
    used ← xdr_uint64 X v.used
    rdev ← xdr_specdata3 v.rdev
    fsid ← xdr_uint64 X v.fsid
    fileid ← xdr_uint64 X v.fileid
    atime ← xdr_nfstime3 v.atime
    mtime ← xdr_nfstime3 v.mtime
    ctime ← xdr_nfstime3 v.ctime
    pure (record {
      ftype = ftype;
      mode = mode;
      nlink = nlink;
      uid = uid;
      gid = gid;
      size = size;
      used = used;
      rdev = rdev;
      fsid = fsid;
      fileid = fileid;
      atime = atime;
      mtime = mtime;
      ctime = ctime;
    })

  unfoldable pub xdr_post_op_attr : PostOpAttr → XdrProg X PostOpAttr
  xdr_post_op_attr v = do
    attributes_follow ← xdr_boolean X v.attributes_follow
    attributes ← xdr_case X (attributes_follow) xdr_fattr3 v.attributes
    pure (record { attributes_follow = attributes_follow; attributes = attributes })

  unfoldable pub xdr_wcc_attr : WccAttr → XdrProg X WccAttr
  xdr_wcc_attr v = do
    size ← xdr_uint64 X v.size
    mtime ← xdr_nfstime3 v.mtime
    ctime ← xdr_nfstime3 v.ctime
    pure (record { size = size; mtime = mtime; ctime = ctime })

  unfoldable pub xdr_pre_op_attr : PreOpAttr → XdrProg X PreOpAttr
  xdr_pre_op_attr v = do
    attributes_follow ← xdr_boolean X v.attributes_follow
    attributes ← xdr_case X (attributes_follow) xdr_wcc_attr v.attributes
    pure (record { attributes_follow = attributes_follow; attributes = attributes })

  unfoldable pub xdr_wcc_data : WccData → XdrProg X WccData
  xdr_wcc_data v = do
    before ← xdr_pre_op_attr v.before
    after ← xdr_post_op_attr v.after
    pure (record { before = before; after = after })

  unfoldable pub xdr_post_op_fh3 : PostOpFh3 → XdrProg X PostOpFh3
  xdr_post_op_fh3 v = do
    handle_follows ← xdr_boolean X v.handle_follows
    handle ← xdr_case X (handle_follows) xdr_nfs_fh3 v.handle
    pure (record { handle_follows = handle_follows; handle = handle })

  -- `Set_mode3`, `Set_uid3` and `Set_gid3`.
  unfoldable pub xdr_set_mode3 : SetNum3 → XdrProg X SetNum3
  xdr_set_mode3 v = do
    set_it ← xdr_boolean X v.set_it
    value ← xdr_case X (set_it) (xdr_uint32 X) v.value
    pure (record { set_it = set_it; value = value })

  unfoldable pub xdr_set_size3 : SetNum3 → XdrProg X SetNum3
  xdr_set_size3 v = do
    set_it ← xdr_boolean X v.set_it
    value ← xdr_case X (set_it) (xdr_uint64 X) v.value
    pure (record { set_it = set_it; value = value })

  -- `Set_atime` and `Set_mtime`.
  unfoldable pub xdr_set_time : SetTime → XdrProg X SetTime
  xdr_set_time v = do
    set_it ← xdr_uint32 X v.set_it
    time ← xdr_case X (set_it == set_to_client_time) xdr_nfstime3 v.time
    pure (record { set_it = set_it; time = time })

  unfoldable pub xdr_sattr3 : Sattr3 → XdrProg X Sattr3
  xdr_sattr3 v = do
    mode ← xdr_set_mode3 v.mode
    uid ← xdr_set_mode3 v.uid
    gid ← xdr_set_mode3 v.gid
    size ← xdr_set_size3 v.size
    atime ← xdr_set_time v.atime
    mtime ← xdr_set_time v.mtime
    pure (record { mode = mode; uid = uid; gid = gid; size = size; atime = atime; mtime = mtime })

  unfoldable pub xdr_diropargs3 : Diropargs3 → XdrProg X Diropargs3
  xdr_diropargs3 v = do
    dir ← xdr_nfs_fh3 v.dir
    name ← xdr_filename3 X v.name
    pure (record { dir = dir; name = name })
