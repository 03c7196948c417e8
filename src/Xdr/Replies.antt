-- ===== src/Xdr/Replies.antt =====
-- nfstypes/nfs_xdr.go: the parts of the results.
use go_nfsd.Prelude.{◌==◌, not}
use go_nfsd.External.Xdr.{Xdr}
use go_nfsd.Programs.{pure, ◌>>=◌}
use go_nfsd.Nfstypes.Results.{
  ResOf, LookupResok, AccessResok, ReadlinkResok, ReadResok, WriteResok, CreateResok, RenameWcc,
  LinkWcc, FsstatResok, FsinfoResok, PathconfResok, CommitResok,
}
use go_nfsd.Xdr.{
  XdrProg, xdr_uint32, xdr_uint64, xdr_boolean, xdr_filename3, xdr_opaque, xdr_verf, xdr_case,
}
use go_nfsd.Xdr.Attributes.{
  xdr_nfs_fh3, xdr_nfstime3, xdr_post_op_attr, xdr_wcc_data, xdr_post_op_fh3,
}

module _ (X : Xdr) where
  unfoldable pub xdr_lookup_resok : LookupResok → XdrProg X LookupResok
  xdr_lookup_resok v = do
    object ← xdr_nfs_fh3 X v.object
    obj_attributes ← xdr_post_op_attr X v.obj_attributes
    dir_attributes ← xdr_post_op_attr X v.dir_attributes
    pure (record {
      object = object;
      obj_attributes = obj_attributes;
      dir_attributes = dir_attributes;
    })

  unfoldable pub xdr_access_resok : AccessResok → XdrProg X AccessResok
  xdr_access_resok v = do
    obj_attributes ← xdr_post_op_attr X v.obj_attributes
    access ← xdr_uint32 X v.access
    pure (record { obj_attributes = obj_attributes; access = access })

  unfoldable pub xdr_readlink_resok : ReadlinkResok → XdrProg X ReadlinkResok
  xdr_readlink_resok v = do
    symlink_attributes ← xdr_post_op_attr X v.symlink_attributes
    path ← xdr_filename3 X v.path
    pure (record { symlink_attributes = symlink_attributes; path = path })

  unfoldable pub xdr_read_resok : ReadResok → XdrProg X ReadResok
  xdr_read_resok v = do
    file_attributes ← xdr_post_op_attr X v.file_attributes
    count ← xdr_uint32 X v.count
    eof ← xdr_boolean X v.eof
    bytes ← xdr_opaque X v.bytes
    pure (record { file_attributes = file_attributes; count = count; eof = eof; bytes = bytes })

  unfoldable pub xdr_write_resok : WriteResok → XdrProg X WriteResok
  xdr_write_resok v = do
    file_wcc ← xdr_wcc_data X v.file_wcc
    count ← xdr_uint32 X v.count
    committed ← xdr_uint32 X v.committed
    verf ← xdr_verf X v.verf
    pure (record { file_wcc = file_wcc; count = count; committed = committed; verf = verf })

  -- Of CREATE, MKDIR, SYMLINK and MKNOD.
  unfoldable pub xdr_create_resok : CreateResok → XdrProg X CreateResok
  xdr_create_resok v = do
    obj ← xdr_post_op_fh3 X v.obj
    obj_attributes ← xdr_post_op_attr X v.obj_attributes
    dir_wcc ← xdr_wcc_data X v.dir_wcc
    pure (record { obj = obj; obj_attributes = obj_attributes; dir_wcc = dir_wcc })

  -- `RENAME3resok` and `RENAME3resfail`.
  unfoldable pub xdr_rename_wcc : RenameWcc → XdrProg X RenameWcc
  xdr_rename_wcc v = do
    fromdir_wcc ← xdr_wcc_data X v.fromdir_wcc
    todir_wcc ← xdr_wcc_data X v.todir_wcc
    pure (record { fromdir_wcc = fromdir_wcc; todir_wcc = todir_wcc })

  -- `LINK3resok` and `LINK3resfail`.
  unfoldable pub xdr_link_wcc : LinkWcc → XdrProg X LinkWcc
  xdr_link_wcc v = do
    file_attributes ← xdr_post_op_attr X v.file_attributes
    linkdir_wcc ← xdr_wcc_data X v.linkdir_wcc
    pure (record { file_attributes = file_attributes; linkdir_wcc = linkdir_wcc })

  unfoldable pub xdr_fsstat_resok : FsstatResok → XdrProg X FsstatResok
  xdr_fsstat_resok v = do
    obj_attributes ← xdr_post_op_attr X v.obj_attributes
    tbytes ← xdr_uint64 X v.tbytes
    fbytes ← xdr_uint64 X v.fbytes
    abytes ← xdr_uint64 X v.abytes
    tfiles ← xdr_uint64 X v.tfiles
    ffiles ← xdr_uint64 X v.ffiles
    afiles ← xdr_uint64 X v.afiles
    invarsec ← xdr_uint32 X v.invarsec
    pure (record {
      obj_attributes = obj_attributes;
      tbytes = tbytes;
      fbytes = fbytes;
      abytes = abytes;
      tfiles = tfiles;
      ffiles = ffiles;
      afiles = afiles;
      invarsec = invarsec;
    })

  unfoldable pub xdr_fsinfo_resok : FsinfoResok → XdrProg X FsinfoResok
  xdr_fsinfo_resok v = do
    obj_attributes ← xdr_post_op_attr X v.obj_attributes
    rtmax ← xdr_uint32 X v.rtmax
    rtpref ← xdr_uint32 X v.rtpref
    rtmult ← xdr_uint32 X v.rtmult
    wtmax ← xdr_uint32 X v.wtmax
    wtpref ← xdr_uint32 X v.wtpref
    wtmult ← xdr_uint32 X v.wtmult
    dtpref ← xdr_uint32 X v.dtpref
    maxfilesize ← xdr_uint64 X v.maxfilesize
    time_delta ← xdr_nfstime3 X v.time_delta
    properties ← xdr_uint32 X v.properties
    pure (record {
      obj_attributes = obj_attributes;
      rtmax = rtmax;
      rtpref = rtpref;
      rtmult = rtmult;
      wtmax = wtmax;
      wtpref = wtpref;
      wtmult = wtmult;
      dtpref = dtpref;
      maxfilesize = maxfilesize;
      time_delta = time_delta;
      properties = properties;
    })

  unfoldable pub xdr_pathconf_resok : PathconfResok → XdrProg X PathconfResok
  xdr_pathconf_resok v = do
    obj_attributes ← xdr_post_op_attr X v.obj_attributes
    linkmax ← xdr_uint32 X v.linkmax
    name_max ← xdr_uint32 X v.name_max
    no_trunc ← xdr_boolean X v.no_trunc
    chown_restricted ← xdr_boolean X v.chown_restricted
    case_insensitive ← xdr_boolean X v.case_insensitive
    case_preserving ← xdr_boolean X v.case_preserving
    pure (record {
      obj_attributes = obj_attributes;
      linkmax = linkmax;
      name_max = name_max;
      no_trunc = no_trunc;
      chown_restricted = chown_restricted;
      case_insensitive = case_insensitive;
      case_preserving = case_preserving;
    })

  unfoldable pub xdr_commit_resok : CommitResok → XdrProg X CommitResok
  xdr_commit_resok v = do
    file_wcc ← xdr_wcc_data X v.file_wcc
    verf ← xdr_verf X v.verf
    pure (record { file_wcc = file_wcc; verf = verf })

  -- `GETATTR3res` and the other results: the part of the status that it has.
  unfoldable pub xdr_res :
      {Ok Fail : Type 0}
      → (Ok → XdrProg X Ok)
      → (Fail → XdrProg X Fail)
      → ResOf Ok Fail
      → XdrProg X (ResOf Ok Fail)
  xdr_res f g v = do
    status ← xdr_uint32 X v.status
    resok ← xdr_case X (status == 0) f v.resok
    resfail ← xdr_case X (not (status == 0)) g v.resfail
    pure (record { status = status; resok = resok; resfail = resfail })

  -- A result without a part for other statuses.
  unfoldable pub xdr_nothing : Unit {0} → XdrProg X (Unit {0})
  xdr_nothing v = pure v
