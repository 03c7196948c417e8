-- ===== src/Nfstypes/Zeros.antt =====
-- nfstypes/nfs_types.go: the zero values of Go.
use go_nfsd.Prelude.{false, [], ◌∷◌}
use go_nfsd.Nfstypes.Basic.{
  Bytes, Diropargs3, PreOpAttr, Sattr3, SetNum3, SetTime, WccAttr, WccData, zero_time,
  zero_specdata, zero_fh,
}
use go_nfsd.Nfstypes.Replies.{
  CommitArgs, Dirlist3, Entry3, GetattrArgs, LookupArgs, ReadArgs, Sattrguard3, SetattrArgs,
  WriteArgs,
}
use go_nfsd.Nfstypes.Procs.{
  CreateArgs, Createhow3, Entryplus3, MkdirArgs, ReaddirArgs, ReaddirplusArgs, ReadlinkArgs,
  RemoveArgs, RenameArgs, SymlinkArgs, Symlinkdata3, zero_post_op_attr, zero_post_op_fh,
  zero_dirlistplus,
}
use go_nfsd.Nfstypes.Args.{
  AccessArgs, Devicedata3, FsinfoArgs, FsstatArgs, LinkArgs, MknodArgs, Mknoddata3, PathconfArgs,
}
use go_nfsd.Nfstypes.Results.{
  AccessResok, CommitResok, CreateResok, FsinfoResok, FsstatResok, LinkWcc, LookupResok,
  PathconfResok, ReadResok, ReaddirResok, ReaddirplusResok, ReadlinkResok, RenameWcc, WriteResok,
}

abbrev pub zero_verf : Bytes
zero_verf = 0 ∷ 0 ∷ 0 ∷ 0 ∷ 0 ∷ 0 ∷ 0 ∷ 0 ∷ []

abbrev pub zero_dirlist : Dirlist3
zero_dirlist = record { entries = []; eof = false }

abbrev pub zero_set_num : SetNum3
zero_set_num = record { set_it = false; value = 0 }

abbrev pub zero_wcc_attr : WccAttr
zero_wcc_attr = record { size = 0; mtime = zero_time; ctime = zero_time }

abbrev pub zero_pre_op_attr : PreOpAttr
zero_pre_op_attr = record { attributes_follow = false; attributes = zero_wcc_attr }

abbrev pub zero_wcc_data : WccData
zero_wcc_data = record { before = zero_pre_op_attr; after = zero_post_op_attr }

abbrev pub zero_set_time : SetTime
zero_set_time = record { set_it = 0; time = zero_time }

abbrev pub zero_sattr3 : Sattr3
zero_sattr3 = record {
  mode = zero_set_num;
  uid = zero_set_num;
  gid = zero_set_num;
  size = zero_set_num;
  atime = zero_set_time;
  mtime = zero_set_time;
}

abbrev pub zero_diropargs3 : Diropargs3
zero_diropargs3 = record { dir = zero_fh; name = [] }

abbrev pub zero_getattr_args : GetattrArgs
zero_getattr_args = record { object = zero_fh }

abbrev pub zero_sattrguard3 : Sattrguard3
zero_sattrguard3 = record { check = false; obj_ctime = zero_time }

abbrev pub zero_setattr_args : SetattrArgs
zero_setattr_args = record {
  object = zero_fh;
  new_attributes = zero_sattr3;
  guard = zero_sattrguard3;
}

abbrev pub zero_lookup_args : LookupArgs
zero_lookup_args = record { what = zero_diropargs3 }

abbrev pub zero_access_args : AccessArgs
zero_access_args = record { object = zero_fh; access = 0 }

abbrev pub zero_readlink_args : ReadlinkArgs
zero_readlink_args = record { symlink = zero_fh }

abbrev pub zero_read_args : ReadArgs
zero_read_args = record { file = zero_fh; offset = 0; count = 0 }

abbrev pub zero_write_args : WriteArgs
zero_write_args = record { file = zero_fh; offset = 0; count = 0; stable = 0; bytes = [] }

abbrev pub zero_createhow3 : Createhow3
zero_createhow3 = record { mode = 0; obj_attributes = zero_sattr3; verf = zero_verf }

abbrev pub zero_create_args : CreateArgs
zero_create_args = record { location = zero_diropargs3; how = zero_createhow3 }

abbrev pub zero_mkdir_args : MkdirArgs
zero_mkdir_args = record { location = zero_diropargs3; attributes = zero_sattr3 }

abbrev pub zero_symlinkdata3 : Symlinkdata3
zero_symlinkdata3 = record { symlink_attributes = zero_sattr3; symlink_data = [] }

abbrev pub zero_symlink_args : SymlinkArgs
zero_symlink_args = record { location = zero_diropargs3; symlink = zero_symlinkdata3 }

abbrev pub zero_devicedata3 : Devicedata3
zero_devicedata3 = record { dev_attributes = zero_sattr3; spec = zero_specdata }

abbrev pub zero_mknoddata3 : Mknoddata3
zero_mknoddata3 = record { ftype = 0; device = zero_devicedata3; pipe_attributes = zero_sattr3 }

abbrev pub zero_mknod_args : MknodArgs
zero_mknod_args = record { location = zero_diropargs3; what = zero_mknoddata3 }

abbrev pub zero_remove_args : RemoveArgs
zero_remove_args = record { object = zero_diropargs3 }

abbrev pub zero_rename_args : RenameArgs
zero_rename_args = record { source = zero_diropargs3; target = zero_diropargs3 }

abbrev pub zero_link_args : LinkArgs
zero_link_args = record { file = zero_fh; link = zero_diropargs3 }

abbrev pub zero_readdir_args : ReaddirArgs
zero_readdir_args = record { dir = zero_fh; cookie = 0; cookieverf = zero_verf; count = 0 }

abbrev pub zero_readdirplus_args : ReaddirplusArgs
zero_readdirplus_args = record {
  dir = zero_fh;
  cookie = 0;
  cookieverf = zero_verf;
  dircount = 0;
  maxcount = 0;
}

abbrev pub zero_fsstat_args : FsstatArgs
zero_fsstat_args = record { fsroot = zero_fh }

abbrev pub zero_fsinfo_args : FsinfoArgs
zero_fsinfo_args = record { fsroot = zero_fh }

abbrev pub zero_pathconf_args : PathconfArgs
zero_pathconf_args = record { object = zero_fh }

abbrev pub zero_commit_args : CommitArgs
zero_commit_args = record { file = zero_fh; offset = 0; count = 0 }

abbrev pub zero_lookup_resok : LookupResok
zero_lookup_resok = record {
  object = zero_fh;
  obj_attributes = zero_post_op_attr;
  dir_attributes = zero_post_op_attr;
}

abbrev pub zero_access_resok : AccessResok
zero_access_resok = record { obj_attributes = zero_post_op_attr; access = 0 }

abbrev pub zero_readlink_resok : ReadlinkResok
zero_readlink_resok = record { symlink_attributes = zero_post_op_attr; path = [] }

abbrev pub zero_read_resok : ReadResok
zero_read_resok = record { file_attributes = zero_post_op_attr; count = 0; eof = false; bytes = [] }

abbrev pub zero_write_resok : WriteResok
zero_write_resok = record { file_wcc = zero_wcc_data; count = 0; committed = 0; verf = zero_verf }

abbrev pub zero_create_resok : CreateResok
zero_create_resok = record {
  obj = zero_post_op_fh;
  obj_attributes = zero_post_op_attr;
  dir_wcc = zero_wcc_data;
}

abbrev pub zero_rename_wcc : RenameWcc
zero_rename_wcc = record { fromdir_wcc = zero_wcc_data; todir_wcc = zero_wcc_data }

abbrev pub zero_link_wcc : LinkWcc
zero_link_wcc = record { file_attributes = zero_post_op_attr; linkdir_wcc = zero_wcc_data }

abbrev pub zero_fsstat_resok : FsstatResok
zero_fsstat_resok = record {
  obj_attributes = zero_post_op_attr;
  tbytes = 0;
  fbytes = 0;
  abytes = 0;
  tfiles = 0;
  ffiles = 0;
  afiles = 0;
  invarsec = 0;
}

abbrev pub zero_fsinfo_resok : FsinfoResok
zero_fsinfo_resok = record {
  obj_attributes = zero_post_op_attr;
  rtmax = 0;
  rtpref = 0;
  rtmult = 0;
  wtmax = 0;
  wtpref = 0;
  wtmult = 0;
  dtpref = 0;
  maxfilesize = 0;
  time_delta = zero_time;
  properties = 0;
}

abbrev pub zero_pathconf_resok : PathconfResok
zero_pathconf_resok = record {
  obj_attributes = zero_post_op_attr;
  linkmax = 0;
  name_max = 0;
  no_trunc = false;
  chown_restricted = false;
  case_insensitive = false;
  case_preserving = false;
}

abbrev pub zero_commit_resok : CommitResok
zero_commit_resok = record { file_wcc = zero_wcc_data; verf = zero_verf }

abbrev pub zero_entry3 : Entry3
zero_entry3 = record { fileid = 0; name = []; cookie = 0 }

abbrev pub zero_entryplus3 : Entryplus3
zero_entryplus3 = record {
  fileid = 0;
  name = [];
  cookie = 0;
  name_attributes = zero_post_op_attr;
  name_handle = zero_post_op_fh;
}

abbrev pub zero_readdir_resok : ReaddirResok
zero_readdir_resok = record {
  dir_attributes = zero_post_op_attr;
  cookieverf = zero_verf;
  reply = zero_dirlist;
}

abbrev pub zero_readdirplus_resok : ReaddirplusResok
zero_readdirplus_resok = record {
  dir_attributes = zero_post_op_attr;
  cookieverf = zero_verf;
  reply = zero_dirlistplus;
}
