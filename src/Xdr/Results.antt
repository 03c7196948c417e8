-- ===== src/Xdr/Results.antt =====
-- nfstypes/nfs_xdr.go: the methods `Xdr` of the results: a status, and what goes with it.
use go_nfsd.Prelude.{ℕ}
use go_nfsd.External.Xdr.{Xdr}
use go_nfsd.Nfstypes.{Fattr3, PostOpAttr, WccData}
use go_nfsd.Nfstypes.Results.{
  ResOf, LookupResok, AccessResok, ReadlinkResok, ReadResok, WriteResok, CreateResok, RenameWcc,
  LinkWcc, FsstatResok, FsinfoResok, PathconfResok, CommitResok, ReaddirResok, ReaddirplusResok,
}
use go_nfsd.Xdr.{XdrProg}
use go_nfsd.Xdr.Attributes.{xdr_fattr3, xdr_post_op_attr, xdr_wcc_data}
use go_nfsd.Xdr.Replies.{
  xdr_lookup_resok, xdr_access_resok, xdr_readlink_resok, xdr_read_resok, xdr_write_resok,
  xdr_create_resok, xdr_rename_wcc, xdr_link_wcc, xdr_fsstat_resok, xdr_fsinfo_resok,
  xdr_pathconf_resok, xdr_commit_resok, xdr_res, xdr_nothing,
}
use go_nfsd.Xdr.Lists.{xdr_readdir_resok, xdr_readdirplus_resok}

module _ (X : Xdr) where
  unfoldable pub xdr_getattr_res : ResOf Fattr3 (Unit {0}) → XdrProg X (ResOf Fattr3 (Unit {0}))
  xdr_getattr_res = xdr_res X (xdr_fattr3 X) (xdr_nothing X)

  unfoldable pub xdr_setattr_res : ResOf WccData WccData → XdrProg X (ResOf WccData WccData)
  xdr_setattr_res = xdr_res X (xdr_wcc_data X) (xdr_wcc_data X)

  unfoldable pub xdr_lookup_res :
      ResOf LookupResok PostOpAttr → XdrProg X (ResOf LookupResok PostOpAttr)
  xdr_lookup_res = xdr_res X (xdr_lookup_resok X) (xdr_post_op_attr X)

  unfoldable pub xdr_access_res :
      ResOf AccessResok PostOpAttr → XdrProg X (ResOf AccessResok PostOpAttr)
  xdr_access_res = xdr_res X (xdr_access_resok X) (xdr_post_op_attr X)

  unfoldable pub xdr_readlink_res :
      ResOf ReadlinkResok PostOpAttr → XdrProg X (ResOf ReadlinkResok PostOpAttr)
  xdr_readlink_res = xdr_res X (xdr_readlink_resok X) (xdr_post_op_attr X)

  unfoldable pub xdr_read_res : ResOf ReadResok PostOpAttr → XdrProg X (ResOf ReadResok PostOpAttr)
  xdr_read_res = xdr_res X (xdr_read_resok X) (xdr_post_op_attr X)

  unfoldable pub xdr_write_res : ResOf WriteResok WccData → XdrProg X (ResOf WriteResok WccData)
  xdr_write_res = xdr_res X (xdr_write_resok X) (xdr_wcc_data X)

  unfoldable pub xdr_create_res : ResOf CreateResok WccData → XdrProg X (ResOf CreateResok WccData)
  xdr_create_res = xdr_res X (xdr_create_resok X) (xdr_wcc_data X)

  unfoldable pub xdr_mknod_res : ResOf CreateResok WccData → XdrProg X (ResOf CreateResok WccData)
  xdr_mknod_res = xdr_res X (xdr_create_resok X) (xdr_wcc_data X)

  unfoldable pub xdr_remove_res : ResOf WccData WccData → XdrProg X (ResOf WccData WccData)
  xdr_remove_res = xdr_res X (xdr_wcc_data X) (xdr_wcc_data X)

  unfoldable pub xdr_rename_res : ResOf RenameWcc RenameWcc → XdrProg X (ResOf RenameWcc RenameWcc)
  xdr_rename_res = xdr_res X (xdr_rename_wcc X) (xdr_rename_wcc X)

  unfoldable pub xdr_link_res : ResOf LinkWcc LinkWcc → XdrProg X (ResOf LinkWcc LinkWcc)
  xdr_link_res = xdr_res X (xdr_link_wcc X) (xdr_link_wcc X)

  unfoldable pub xdr_fsstat_res :
      ResOf FsstatResok PostOpAttr → XdrProg X (ResOf FsstatResok PostOpAttr)
  xdr_fsstat_res = xdr_res X (xdr_fsstat_resok X) (xdr_post_op_attr X)

  unfoldable pub xdr_commit_res : ResOf CommitResok WccData → XdrProg X (ResOf CommitResok WccData)
  xdr_commit_res = xdr_res X (xdr_commit_resok X) (xdr_wcc_data X)

  unfoldable pub xdr_readdir_res :
      ℕ → ResOf ReaddirResok PostOpAttr → XdrProg X (ResOf ReaddirResok PostOpAttr)
  xdr_readdir_res rounds = xdr_res X (xdr_readdir_resok X rounds) (xdr_post_op_attr X)

  unfoldable pub xdr_readdirplus_res :
      ℕ → ResOf ReaddirplusResok PostOpAttr → XdrProg X (ResOf ReaddirplusResok PostOpAttr)
  xdr_readdirplus_res rounds = xdr_res X (xdr_readdirplus_resok X rounds) (xdr_post_op_attr X)

  unfoldable pub xdr_fsinfo_res :
      ResOf FsinfoResok PostOpAttr → XdrProg X (ResOf FsinfoResok PostOpAttr)
  xdr_fsinfo_res = xdr_res X (xdr_fsinfo_resok X) (xdr_post_op_attr X)

  unfoldable pub xdr_pathconf_res :
      ResOf PathconfResok PostOpAttr → XdrProg X (ResOf PathconfResok PostOpAttr)
  xdr_pathconf_res = xdr_res X (xdr_pathconf_resok X) (xdr_post_op_attr X)
