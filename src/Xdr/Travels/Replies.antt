-- ===== src/Xdr/Travels/Replies.antt =====
-- nfstypes/nfs_xdr.go: the parts of the results: what fits a message arrives.
use go_nfsd.Prelude.{◌<◌, ◌^◌, ◌≡◌, ◌==◌, length, not}
use go_nfsd.External.Xdr.{Xdr, XdrLaws}
use go_nfsd.Nfstypes.Results.{
  ResOf, LookupResok, AccessResok, ReadlinkResok, ReadResok, WriteResok, CreateResok, RenameWcc,
  LinkWcc, FsstatResok, FsinfoResok, PathconfResok, CommitResok,
}
use go_nfsd.Nfstypes.Zeros.{
  zero_lookup_resok, zero_access_resok, zero_readlink_resok, zero_read_resok, zero_write_resok,
  zero_create_resok, zero_rename_wcc, zero_link_wcc, zero_fsstat_resok, zero_fsinfo_resok,
  zero_pathconf_resok, zero_commit_resok,
}
use go_nfsd.Xdr.{XdrProg}
use go_nfsd.Xdr.Sends.{
  Travels, Arm, Sends-pure, Sends-bind, uint32-Travels, uint64-Travels, boolean-Travels,
  filename3-Travels, opaque-Travels, verf-Travels, case-Travels,
}
use go_nfsd.Xdr.Travels.Attributes.{
  FitsNfsFh3, nfs_fh3-Travels, FitsNfstime3, nfstime3-Travels, FitsPostOpAttr, post_op_attr-Travels,
  FitsWccData, wcc_data-Travels, FitsPostOpFh3, post_op_fh3-Travels,
}
use go_nfsd.Xdr.Replies.{
  xdr_lookup_resok, xdr_access_resok, xdr_readlink_resok, xdr_read_resok, xdr_write_resok,
  xdr_create_resok, xdr_rename_wcc, xdr_link_wcc, xdr_fsstat_resok, xdr_fsinfo_resok,
  xdr_pathconf_resok, xdr_commit_resok, xdr_res, xdr_nothing,
}

pub record FitsLookupResok (v : LookupResok) : Type 0 where
  pub object : FitsNfsFh3 v.object
  pub obj_attributes : FitsPostOpAttr v.obj_attributes
  pub dir_attributes : FitsPostOpAttr v.dir_attributes

pub record FitsAccessResok (v : AccessResok) : Type 0 where
  pub obj_attributes : FitsPostOpAttr v.obj_attributes
  pub access : v.access < 2 ^ 32

pub record FitsReadlinkResok (v : ReadlinkResok) : Type 0 where
  pub symlink_attributes : FitsPostOpAttr v.symlink_attributes
  pub path : length v.path < 2 ^ 32

pub record FitsReadResok (v : ReadResok) : Type 0 where
  pub file_attributes : FitsPostOpAttr v.file_attributes
  pub count : v.count < 2 ^ 32
  pub bytes : length v.bytes < 2 ^ 32

pub record FitsWriteResok (v : WriteResok) : Type 0 where
  pub file_wcc : FitsWccData v.file_wcc
  pub count : v.count < 2 ^ 32
  pub committed : v.committed < 2 ^ 32
  pub verf : 8 ≡ length v.verf

pub record FitsCreateResok (v : CreateResok) : Type 0 where
  pub obj : FitsPostOpFh3 v.obj
  pub obj_attributes : FitsPostOpAttr v.obj_attributes
  pub dir_wcc : FitsWccData v.dir_wcc

pub record FitsRenameWcc (v : RenameWcc) : Type 0 where
  pub fromdir_wcc : FitsWccData v.fromdir_wcc
  pub todir_wcc : FitsWccData v.todir_wcc

pub record FitsLinkWcc (v : LinkWcc) : Type 0 where
  pub file_attributes : FitsPostOpAttr v.file_attributes
  pub linkdir_wcc : FitsWccData v.linkdir_wcc

pub record FitsFsstatResok (v : FsstatResok) : Type 0 where
  pub obj_attributes : FitsPostOpAttr v.obj_attributes
  pub tbytes : v.tbytes < 2 ^ 64
  pub fbytes : v.fbytes < 2 ^ 64
  pub abytes : v.abytes < 2 ^ 64
  pub tfiles : v.tfiles < 2 ^ 64
  pub ffiles : v.ffiles < 2 ^ 64
  pub afiles : v.afiles < 2 ^ 64
  pub invarsec : v.invarsec < 2 ^ 32

pub record FitsFsinfoResok (v : FsinfoResok) : Type 0 where
  pub obj_attributes : FitsPostOpAttr v.obj_attributes
  pub rtmax : v.rtmax < 2 ^ 32
  pub rtpref : v.rtpref < 2 ^ 32
  pub rtmult : v.rtmult < 2 ^ 32
  pub wtmax : v.wtmax < 2 ^ 32
  pub wtpref : v.wtpref < 2 ^ 32
  pub wtmult : v.wtmult < 2 ^ 32
  pub dtpref : v.dtpref < 2 ^ 32
  pub maxfilesize : v.maxfilesize < 2 ^ 64
  pub time_delta : FitsNfstime3 v.time_delta
  pub properties : v.properties < 2 ^ 32

pub record FitsPathconfResok (v : PathconfResok) : Type 0 where
  pub obj_attributes : FitsPostOpAttr v.obj_attributes
  pub linkmax : v.linkmax < 2 ^ 32
  pub name_max : v.name_max < 2 ^ 32

pub record FitsCommitResok (v : CommitResok) : Type 0 where
  pub file_wcc : FitsWccData v.file_wcc
  pub verf : 8 ≡ length v.verf

pub record FitsRes {Ok Fail : Type 0} (FitsOk : Ok → Type 0) (FitsFail : Fail → Type 0) (ok : Ok)
    (fail : Fail) (v : ResOf Ok Fail) : Type 0 where
  pub status : v.status < 2 ^ 32
  pub resok : Arm (v.status == 0) (FitsOk v.resok) (v.resok ≡ ok)
  pub resfail : Arm (not (v.status == 0)) (FitsFail v.resfail) (v.resfail ≡ fail)

module _ (X : Xdr) (L : XdrLaws X) where
  pub lookup_resok-Travels :
      (v : LookupResok) → FitsLookupResok v → Travels X L (xdr_lookup_resok X) zero_lookup_resok v
  unfolding xdr_lookup_resok
  lookup_resok-Travels v fits = Sends-bind X L _ _ (nfs_fh3-Travels X L _ fits.object) (
      Sends-bind X L _ _ (post_op_attr-Travels X L _ fits.obj_attributes)
        (Sends-bind X L _ _ (post_op_attr-Travels X L _ fits.dir_attributes) (Sends-pure X L _)))

  pub access_resok-Travels :
      (v : AccessResok) → FitsAccessResok v → Travels X L (xdr_access_resok X) zero_access_resok v
  unfolding xdr_access_resok
  access_resok-Travels v fits =
      Sends-bind X L _ _ (post_op_attr-Travels X L _ fits.obj_attributes)
        (Sends-bind X L _ _ (uint32-Travels X L _ _ fits.access) (Sends-pure X L _))

  pub readlink_resok-Travels :
      (v : ReadlinkResok)
      → FitsReadlinkResok v
      → Travels X L (xdr_readlink_resok X) zero_readlink_resok v
  unfolding xdr_readlink_resok
  readlink_resok-Travels v fits =
      Sends-bind X L _ _ (post_op_attr-Travels X L _ fits.symlink_attributes)
        (Sends-bind X L _ _ (filename3-Travels X L _ _ fits.path) (Sends-pure X L _))

  pub read_resok-Travels :
      (v : ReadResok) → FitsReadResok v → Travels X L (xdr_read_resok X) zero_read_resok v
  unfolding xdr_read_resok
  read_resok-Travels v fits = Sends-bind X L _ _ (post_op_attr-Travels X L _ fits.file_attributes) (
      Sends-bind X L _ _ (uint32-Travels X L _ _ fits.count) (
        Sends-bind X L _ _ (boolean-Travels X L _ _)
          (Sends-bind X L _ _ (opaque-Travels X L _ _ fits.bytes) (Sends-pure X L _))))

  pub write_resok-Travels :
      (v : WriteResok) → FitsWriteResok v → Travels X L (xdr_write_resok X) zero_write_resok v
  unfolding xdr_write_resok
  write_resok-Travels v fits = Sends-bind X L _ _ (wcc_data-Travels X L _ fits.file_wcc) (
      Sends-bind X L _ _ (uint32-Travels X L _ _ fits.count) (
        Sends-bind X L _ _ (uint32-Travels X L _ _ fits.committed)
          (Sends-bind X L _ _ (verf-Travels X L _ _ fits.verf) (Sends-pure X L _))))

  pub create_resok-Travels :
      (v : CreateResok) → FitsCreateResok v → Travels X L (xdr_create_resok X) zero_create_resok v
  unfolding xdr_create_resok
  create_resok-Travels v fits = Sends-bind X L _ _ (post_op_fh3-Travels X L _ fits.obj) (
      Sends-bind X L _ _ (post_op_attr-Travels X L _ fits.obj_attributes)
        (Sends-bind X L _ _ (wcc_data-Travels X L _ fits.dir_wcc) (Sends-pure X L _)))

  pub rename_wcc-Travels :
      (v : RenameWcc) → FitsRenameWcc v → Travels X L (xdr_rename_wcc X) zero_rename_wcc v
  unfolding xdr_rename_wcc
  rename_wcc-Travels v fits =
      Sends-bind X L _ _ (wcc_data-Travels X L _ fits.fromdir_wcc)
        (Sends-bind X L _ _ (wcc_data-Travels X L _ fits.todir_wcc) (Sends-pure X L _))

  pub link_wcc-Travels :
      (v : LinkWcc) → FitsLinkWcc v → Travels X L (xdr_link_wcc X) zero_link_wcc v
  unfolding xdr_link_wcc
  link_wcc-Travels v fits =
      Sends-bind X L _ _ (post_op_attr-Travels X L _ fits.file_attributes)
        (Sends-bind X L _ _ (wcc_data-Travels X L _ fits.linkdir_wcc) (Sends-pure X L _))

  pub fsstat_resok-Travels :
      (v : FsstatResok) → FitsFsstatResok v → Travels X L (xdr_fsstat_resok X) zero_fsstat_resok v
  unfolding xdr_fsstat_resok
  fsstat_resok-Travels v fits =
      Sends-bind X L _ _ (post_op_attr-Travels X L _ fits.obj_attributes) (
        Sends-bind X L _ _ (uint64-Travels X L _ _ fits.tbytes) (
          Sends-bind X L _ _ (uint64-Travels X L _ _ fits.fbytes) (
            Sends-bind X L _ _ (uint64-Travels X L _ _ fits.abytes) (
              Sends-bind X L _ _ (uint64-Travels X L _ _ fits.tfiles) (
                Sends-bind X L _ _ (uint64-Travels X L _ _ fits.ffiles) (
                  Sends-bind X L _ _ (uint64-Travels X L _ _ fits.afiles) (
                    Sends-bind X L _ _ (uint32-Travels X L _ _ fits.invarsec)
                      (Sends-pure X L _))))))))

  pub fsinfo_resok-Travels :
      (v : FsinfoResok) → FitsFsinfoResok v → Travels X L (xdr_fsinfo_resok X) zero_fsinfo_resok v
  unfolding xdr_fsinfo_resok
  fsinfo_resok-Travels v fits =
      Sends-bind X L _ _ (post_op_attr-Travels X L _ fits.obj_attributes) (
        Sends-bind X L _ _ (uint32-Travels X L _ _ fits.rtmax) (
          Sends-bind X L _ _ (uint32-Travels X L _ _ fits.rtpref) (
            Sends-bind X L _ _ (uint32-Travels X L _ _ fits.rtmult) (
              Sends-bind X L _ _ (uint32-Travels X L _ _ fits.wtmax) (
                Sends-bind X L _ _ (uint32-Travels X L _ _ fits.wtpref) (
                  Sends-bind X L _ _ (uint32-Travels X L _ _ fits.wtmult) (
                    Sends-bind X L _ _ (uint32-Travels X L _ _ fits.dtpref) (
                      Sends-bind X L _ _ (uint64-Travels X L _ _ fits.maxfilesize) (
                        Sends-bind X L _ _ (nfstime3-Travels X L _ fits.time_delta) (
                          Sends-bind X L _ _ (uint32-Travels X L _ _ fits.properties)
                            (Sends-pure X L _)))))))))))

  pub pathconf_resok-Travels :
      (v : PathconfResok)
      → FitsPathconfResok v
      → Travels X L (xdr_pathconf_resok X) zero_pathconf_resok v
  unfolding xdr_pathconf_resok
  pathconf_resok-Travels v fits =
      Sends-bind X L _ _ (post_op_attr-Travels X L _ fits.obj_attributes) (
        Sends-bind X L _ _ (uint32-Travels X L _ _ fits.linkmax) (
          Sends-bind X L _ _ (uint32-Travels X L _ _ fits.name_max) (
            Sends-bind X L _ _ (boolean-Travels X L _ _) (
              Sends-bind X L _ _ (boolean-Travels X L _ _) (
                Sends-bind X L _ _ (boolean-Travels X L _ _)
                  (Sends-bind X L _ _ (boolean-Travels X L _ _) (Sends-pure X L _)))))))

  pub commit_resok-Travels :
      (v : CommitResok) → FitsCommitResok v → Travels X L (xdr_commit_resok X) zero_commit_resok v
  unfolding xdr_commit_resok
  commit_resok-Travels v fits =
      Sends-bind X L _ _ (wcc_data-Travels X L _ fits.file_wcc)
        (Sends-bind X L _ _ (verf-Travels X L _ _ fits.verf) (Sends-pure X L _))

  pub res-Travels :
      {Ok Fail : Type 0} (FitsOk : Ok → Type 0) (FitsFail : Fail → Type 0) (f : Ok → XdrProg X Ok)
      (g : Fail → XdrProg X Fail) (ok : Ok) (fail : Fail)
      → ((a : Ok) → FitsOk a → Travels X L f ok a)
      → ((a : Fail) → FitsFail a → Travels X L g fail a)
      → (v : ResOf Ok Fail) → FitsRes FitsOk FitsFail ok fail v
      → Travels X L (xdr_res X f g) (record { status = 0; resok = ok; resfail = fail }) v
  unfolding xdr_res
  res-Travels FitsOk FitsFail f g ok fail tf tg v fits =
      Sends-bind X L _ _ (uint32-Travels X L _ _ fits.status) (
        Sends-bind X L _ _
          (case-Travels X L (v.status == 0) f ok _ (λ h. tf _ (fits.resok.0 h)) fits.resok.1)
          (Sends-bind X L _ _
            (case-Travels X L (not (v.status == 0)) g fail _ (λ h. tg _ (fits.resfail.0 h))
              fits.resfail.1)
            (Sends-pure X L _)))

  pub nothing-Travels : (v : Unit {0}) → Travels X L (xdr_nothing X) tt v
  unfolding xdr_nothing
  nothing-Travels v = Sends-pure X L tt
