-- ===== src/Nfs/Results.antt =====
-- nfs/nfs_ops.go: the whole structs of the replies. `var reply` is zero, and a handler sets the fields that
-- its reply here has.
use go_nfsd.Prelude.{ℕ}
use go_nfsd.Nfstypes.{
  Nfsstat3, Fattr3, PostOpAttr, WccData, nfs3_ok, nfs3err_perm, nfs3err_noent, nfs3err_io,
  nfs3err_nxio, nfs3err_acces, nfs3err_exist, nfs3err_xdev, nfs3err_nodev, nfs3err_notdir,
  nfs3err_isdir, nfs3err_inval, nfs3err_fbig, nfs3err_nospc, nfs3err_rofs, nfs3err_mlink,
  nfs3err_nametoolong, nfs3err_notempty, nfs3err_dquot, nfs3err_stale, nfs3err_remote,
  nfs3err_badhandle, nfs3err_not_sync, nfs3err_bad_cookie, nfs3err_notsupp, nfs3err_toosmall,
  nfs3err_serverfault, nfs3err_badtype, nfs3err_jukebox,
}
use go_nfsd.Nfstypes.Replies.{GetattrRes, AccessRes, ReadRes, StatusRes, ReaddirRes}
use go_nfsd.Nfstypes.Procs.{
  SetattrWccRes, LookupAttrRes, ReadlinkRes, WriteWccRes, CreateRes, ReaddirplusRes, FsinfoAllRes,
  PathconfRes, zero_post_op_attr,
}
use go_nfsd.Nfstypes.Results.{
  ResOf, LookupResok, AccessResok, ReadlinkResok, ReadResok, WriteResok, CreateResok, RenameWcc,
  LinkWcc, FsstatResok, FsinfoResok, PathconfResok, CommitResok, ReaddirResok, ReaddirplusResok,
}
use go_nfsd.Nfstypes.Zeros.{
  zero_wcc_data, zero_lookup_resok, zero_access_resok, zero_readlink_resok, zero_read_resok,
  zero_write_resok, zero_create_resok, zero_rename_wcc, zero_link_wcc, zero_fsstat_resok,
  zero_fsinfo_resok, zero_pathconf_resok, zero_commit_resok, zero_readdir_resok,
  zero_readdirplus_resok,
}

unfoldable pub status_number : Nfsstat3 → ℕ
status_number nfs3_ok = 0
status_number nfs3err_perm = 1
status_number nfs3err_noent = 2
status_number nfs3err_io = 5
status_number nfs3err_nxio = 6
status_number nfs3err_acces = 13
status_number nfs3err_exist = 17
status_number nfs3err_xdev = 18
status_number nfs3err_nodev = 19
status_number nfs3err_notdir = 20
status_number nfs3err_isdir = 21
status_number nfs3err_inval = 22
status_number nfs3err_fbig = 27
status_number nfs3err_nospc = 28
status_number nfs3err_rofs = 30
status_number nfs3err_mlink = 31
status_number nfs3err_nametoolong = 63
status_number nfs3err_notempty = 66
status_number nfs3err_dquot = 69
status_number nfs3err_stale = 70
status_number nfs3err_remote = 71
status_number nfs3err_badhandle = 10001
status_number nfs3err_not_sync = 10002
status_number nfs3err_bad_cookie = 10003
status_number nfs3err_notsupp = 10004
status_number nfs3err_toosmall = 10005
status_number nfs3err_serverfault = 10006
status_number nfs3err_badtype = 10007
status_number nfs3err_jukebox = 10008

unfoldable pub getattr_result : GetattrRes → ResOf Fattr3 (Unit {0})
unfolding status_number
getattr_result r = record {
  status = status_number r.status;
  resok = r.obj_attributes;
  resfail = tt;
}

unfoldable pub setattr_result : SetattrWccRes → ResOf WccData WccData
unfolding status_number
setattr_result r = record {
  status = status_number r.status;
  resok = record zero_wcc_data { after = r.obj_wcc };
  resfail = zero_wcc_data;
}

unfoldable pub lookup_result : LookupAttrRes → ResOf LookupResok PostOpAttr
unfolding status_number
lookup_result r = record {
  status = status_number r.status;
  resok = record zero_lookup_resok { object = r.object; obj_attributes = r.obj_attributes };
  resfail = zero_post_op_attr;
}

unfoldable pub access_result : AccessRes → ResOf AccessResok PostOpAttr
unfolding status_number
access_result r = record {
  status = status_number r.status;
  resok = record zero_access_resok { access = r.access };
  resfail = zero_post_op_attr;
}

unfoldable pub readlink_result : ReadlinkRes → ResOf ReadlinkResok PostOpAttr
unfolding status_number
readlink_result r = record {
  status = status_number r.status;
  resok = record zero_readlink_resok { path = r.path };
  resfail = zero_post_op_attr;
}

unfoldable pub read_result : ReadRes → ResOf ReadResok PostOpAttr
unfolding status_number
read_result r = record {
  status = status_number r.status;
  resok = record zero_read_resok { count = r.count; eof = r.eof; bytes = r.bytes };
  resfail = zero_post_op_attr;
}

unfoldable pub write_result : WriteWccRes → ResOf WriteResok WccData
unfolding status_number
write_result r = record {
  status = status_number r.status;
  resok = record zero_write_resok {
    file_wcc = record zero_wcc_data { after = r.file_wcc };
    count = r.count;
    committed = r.committed;
  };
  resfail = zero_wcc_data;
}

unfoldable pub create_result : CreateRes → ResOf CreateResok WccData
unfolding status_number
create_result r = record {
  status = status_number r.status;
  resok = record zero_create_resok { obj = r.obj; obj_attributes = r.obj_attributes };
  resfail = zero_wcc_data;
}

unfoldable pub mknod_result : StatusRes → ResOf CreateResok WccData
unfolding status_number
mknod_result r = record {
  status = status_number r.status;
  resok = zero_create_resok;
  resfail = zero_wcc_data;
}

unfoldable pub remove_result : StatusRes → ResOf WccData WccData
unfolding status_number
remove_result r = record {
  status = status_number r.status;
  resok = zero_wcc_data;
  resfail = zero_wcc_data;
}

unfoldable pub rename_result : StatusRes → ResOf RenameWcc RenameWcc
unfolding status_number
rename_result r = record {
  status = status_number r.status;
  resok = zero_rename_wcc;
  resfail = zero_rename_wcc;
}

unfoldable pub link_result : StatusRes → ResOf LinkWcc LinkWcc
unfolding status_number
link_result r = record {
  status = status_number r.status;
  resok = zero_link_wcc;
  resfail = zero_link_wcc;
}

unfoldable pub fsstat_result : StatusRes → ResOf FsstatResok PostOpAttr
unfolding status_number
fsstat_result r = record {
  status = status_number r.status;
  resok = zero_fsstat_resok;
  resfail = zero_post_op_attr;
}

unfoldable pub commit_result : StatusRes → ResOf CommitResok WccData
unfolding status_number
commit_result r = record {
  status = status_number r.status;
  resok = zero_commit_resok;
  resfail = zero_wcc_data;
}

unfoldable pub readdir_result : ReaddirRes → ResOf ReaddirResok PostOpAttr
unfolding status_number
readdir_result r = record {
  status = status_number r.status;
  resok = record zero_readdir_resok { reply = r.reply };
  resfail = zero_post_op_attr;
}

unfoldable pub readdirplus_result : ReaddirplusRes → ResOf ReaddirplusResok PostOpAttr
unfolding status_number
readdirplus_result r = record {
  status = status_number r.status;
  resok = record zero_readdirplus_resok { reply = r.reply };
  resfail = zero_post_op_attr;
}

unfoldable pub fsinfo_result : FsinfoAllRes → ResOf FsinfoResok PostOpAttr
unfolding status_number
fsinfo_result r = record {
  status = status_number r.status;
  resok = record zero_fsinfo_resok {
    rtmax = r.rtmax;
    rtpref = r.rtpref;
    rtmult = r.rtmult;
    wtmax = r.wtmax;
    wtpref = r.wtpref;
    wtmult = r.wtmult;
    dtpref = r.dtpref;
    maxfilesize = r.maxfilesize;
    properties = r.properties;
  };
  resfail = zero_post_op_attr;
}

unfoldable pub pathconf_result : PathconfRes → ResOf PathconfResok PostOpAttr
unfolding status_number
pathconf_result r = record {
  status = status_number r.status;
  resok = record zero_pathconf_resok {
    linkmax = r.linkmax;
    name_max = r.name_max;
    no_trunc = r.no_trunc;
    case_preserving = r.case_preserving;
  };
  resfail = zero_post_op_attr;
}
