-- ===== src/Xdr/Travels/Attributes.antt =====
-- nfstypes/nfs_xdr.go: the attributes of files, their setters, and names in directories: what fits a message arrives.
use go_nfsd.Prelude.{◌<◌, ◌≤◌, ◌^◌, ◌≡◌, ◌==◌, length}
use go_nfsd.External.Xdr.{Xdr, XdrLaws}
use go_nfsd.Nfstypes.{
  Specdata3, NfsFh3, Nfstime3, Fattr3, PostOpAttr, WccAttr, PreOpAttr, WccData, set_to_client_time,
  SetNum3, SetTime, Sattr3, Diropargs3, zero_time, zero_specdata, zero_fattr, zero_fh,
}
use go_nfsd.Nfstypes.Procs.{PostOpFh3, zero_post_op_attr, zero_post_op_fh}
use go_nfsd.Nfstypes.Zeros.{
  zero_set_num, zero_wcc_attr, zero_pre_op_attr, zero_wcc_data, zero_set_time, zero_sattr3,
  zero_diropargs3,
}
use go_nfsd.Xdr.{xdr_uint32, xdr_uint64}
use go_nfsd.Xdr.Sends.{
  Travels, Arm, Sends-pure, Sends-bind, uint32-Travels, uint64-Travels, boolean-Travels,
  filename3-Travels, fh_bytes-Travels, case-Travels,
}
use go_nfsd.Xdr.Attributes.{
  xdr_specdata3, xdr_nfs_fh3, xdr_nfstime3, xdr_fattr3, xdr_post_op_attr, xdr_wcc_attr,
  xdr_pre_op_attr, xdr_wcc_data, xdr_post_op_fh3, xdr_set_mode3, xdr_set_size3, xdr_set_time,
  xdr_sattr3, xdr_diropargs3,
}

pub record FitsSpecdata3 (v : Specdata3) : Type 0 where
  pub specdata1 : v.specdata1 < 2 ^ 32
  pub specdata2 : v.specdata2 < 2 ^ 32

pub record FitsNfsFh3 (v : NfsFh3) : Type 0 where
  pub bytes : length v.bytes ≤ 64

pub record FitsNfstime3 (v : Nfstime3) : Type 0 where
  pub seconds : v.seconds < 2 ^ 32
  pub nseconds : v.nseconds < 2 ^ 32

pub record FitsFattr3 (v : Fattr3) : Type 0 where
  pub ftype : v.ftype < 2 ^ 32
  pub mode : v.mode < 2 ^ 32
  pub nlink : v.nlink < 2 ^ 32
  pub uid : v.uid < 2 ^ 32
  pub gid : v.gid < 2 ^ 32
  pub size : v.size < 2 ^ 64
  pub used : v.used < 2 ^ 64
  pub rdev : FitsSpecdata3 v.rdev
  pub fsid : v.fsid < 2 ^ 64
  pub fileid : v.fileid < 2 ^ 64
  pub atime : FitsNfstime3 v.atime
  pub mtime : FitsNfstime3 v.mtime
  pub ctime : FitsNfstime3 v.ctime

pub record FitsPostOpAttr (v : PostOpAttr) : Type 0 where
  pub attributes : Arm (v.attributes_follow) (FitsFattr3 v.attributes) (v.attributes ≡ zero_fattr)

pub record FitsWccAttr (v : WccAttr) : Type 0 where
  pub size : v.size < 2 ^ 64
  pub mtime : FitsNfstime3 v.mtime
  pub ctime : FitsNfstime3 v.ctime

pub record FitsPreOpAttr (v : PreOpAttr) : Type 0 where
  pub attributes :
      Arm (v.attributes_follow) (FitsWccAttr v.attributes) (v.attributes ≡ zero_wcc_attr)

pub record FitsWccData (v : WccData) : Type 0 where
  pub before : FitsPreOpAttr v.before
  pub after : FitsPostOpAttr v.after

pub record FitsPostOpFh3 (v : PostOpFh3) : Type 0 where
  pub handle : Arm (v.handle_follows) (FitsNfsFh3 v.handle) (v.handle ≡ zero_fh)

pub record FitsSetMode3 (v : SetNum3) : Type 0 where
  pub value : Arm (v.set_it) (v.value < 2 ^ 32) (v.value ≡ 0)

pub record FitsSetSize3 (v : SetNum3) : Type 0 where
  pub value : Arm (v.set_it) (v.value < 2 ^ 64) (v.value ≡ 0)

pub record FitsSetTime (v : SetTime) : Type 0 where
  pub set_it : v.set_it < 2 ^ 32
  pub time : Arm (v.set_it == set_to_client_time) (FitsNfstime3 v.time) (v.time ≡ zero_time)

pub record FitsSattr3 (v : Sattr3) : Type 0 where
  pub mode : FitsSetMode3 v.mode
  pub uid : FitsSetMode3 v.uid
  pub gid : FitsSetMode3 v.gid
  pub size : FitsSetSize3 v.size
  pub atime : FitsSetTime v.atime
  pub mtime : FitsSetTime v.mtime

pub record FitsDiropargs3 (v : Diropargs3) : Type 0 where
  pub dir : FitsNfsFh3 v.dir
  pub name : length v.name < 2 ^ 32

module _ (X : Xdr) (L : XdrLaws X) where
  pub specdata3-Travels :
      (v : Specdata3) → FitsSpecdata3 v → Travels X L (xdr_specdata3 X) zero_specdata v
  unfolding xdr_specdata3
  specdata3-Travels v fits =
      Sends-bind X L _ _ (uint32-Travels X L _ _ fits.specdata1)
        (Sends-bind X L _ _ (uint32-Travels X L _ _ fits.specdata2) (Sends-pure X L _))

  pub nfs_fh3-Travels : (v : NfsFh3) → FitsNfsFh3 v → Travels X L (xdr_nfs_fh3 X) zero_fh v
  unfolding xdr_nfs_fh3
  nfs_fh3-Travels v fits =
      Sends-bind X L _ _ (fh_bytes-Travels X L _ _ fits.bytes) (Sends-pure X L _)

  pub nfstime3-Travels : (v : Nfstime3) → FitsNfstime3 v → Travels X L (xdr_nfstime3 X) zero_time v
  unfolding xdr_nfstime3
  nfstime3-Travels v fits =
      Sends-bind X L _ _ (uint32-Travels X L _ _ fits.seconds)
        (Sends-bind X L _ _ (uint32-Travels X L _ _ fits.nseconds) (Sends-pure X L _))

  pub fattr3-Travels : (v : Fattr3) → FitsFattr3 v → Travels X L (xdr_fattr3 X) zero_fattr v
  unfolding xdr_fattr3
  fattr3-Travels v fits = Sends-bind X L _ _ (uint32-Travels X L _ _ fits.ftype) (
      Sends-bind X L _ _ (uint32-Travels X L _ _ fits.mode) (
        Sends-bind X L _ _ (uint32-Travels X L _ _ fits.nlink) (
          Sends-bind X L _ _ (uint32-Travels X L _ _ fits.uid) (
            Sends-bind X L _ _ (uint32-Travels X L _ _ fits.gid) (
              Sends-bind X L _ _ (uint64-Travels X L _ _ fits.size) (
                Sends-bind X L _ _ (uint64-Travels X L _ _ fits.used) (
                  Sends-bind X L _ _ (specdata3-Travels _ fits.rdev) (
                    Sends-bind X L _ _ (uint64-Travels X L _ _ fits.fsid) (
                      Sends-bind X L _ _ (uint64-Travels X L _ _ fits.fileid) (
                        Sends-bind X L _ _ (nfstime3-Travels _ fits.atime) (
                          Sends-bind X L _ _ (nfstime3-Travels _ fits.mtime) (
                            Sends-bind X L _ _ (nfstime3-Travels _ fits.ctime)
                              (Sends-pure X L _)))))))))))))

  pub post_op_attr-Travels :
      (v : PostOpAttr) → FitsPostOpAttr v → Travels X L (xdr_post_op_attr X) zero_post_op_attr v
  unfolding xdr_post_op_attr
  post_op_attr-Travels v fits = Sends-bind X L _ _ (boolean-Travels X L _ _) (
      Sends-bind X L _ _
        (case-Travels X L (v.attributes_follow) (xdr_fattr3 X) zero_fattr _
          (λ h. fattr3-Travels _ (fits.attributes.0 h)) fits.attributes.1)
        (Sends-pure X L _))

  pub wcc_attr-Travels :
      (v : WccAttr) → FitsWccAttr v → Travels X L (xdr_wcc_attr X) zero_wcc_attr v
  unfolding xdr_wcc_attr
  wcc_attr-Travels v fits = Sends-bind X L _ _ (uint64-Travels X L _ _ fits.size) (
      Sends-bind X L _ _ (nfstime3-Travels _ fits.mtime)
        (Sends-bind X L _ _ (nfstime3-Travels _ fits.ctime) (Sends-pure X L _)))

  pub pre_op_attr-Travels :
      (v : PreOpAttr) → FitsPreOpAttr v → Travels X L (xdr_pre_op_attr X) zero_pre_op_attr v
  unfolding xdr_pre_op_attr
  pre_op_attr-Travels v fits = Sends-bind X L _ _ (boolean-Travels X L _ _) (
      Sends-bind X L _ _
        (case-Travels X L (v.attributes_follow) (xdr_wcc_attr X) zero_wcc_attr _
          (λ h. wcc_attr-Travels _ (fits.attributes.0 h)) fits.attributes.1)
        (Sends-pure X L _))

  pub wcc_data-Travels :
      (v : WccData) → FitsWccData v → Travels X L (xdr_wcc_data X) zero_wcc_data v
  unfolding xdr_wcc_data
  wcc_data-Travels v fits =
      Sends-bind X L _ _ (pre_op_attr-Travels _ fits.before)
        (Sends-bind X L _ _ (post_op_attr-Travels _ fits.after) (Sends-pure X L _))

  pub post_op_fh3-Travels :
      (v : PostOpFh3) → FitsPostOpFh3 v → Travels X L (xdr_post_op_fh3 X) zero_post_op_fh v
  unfolding xdr_post_op_fh3
  post_op_fh3-Travels v fits = Sends-bind X L _ _ (boolean-Travels X L _ _) (
      Sends-bind X L _ _
        (case-Travels X L (v.handle_follows) (xdr_nfs_fh3 X) zero_fh _
          (λ h. nfs_fh3-Travels _ (fits.handle.0 h)) fits.handle.1)
        (Sends-pure X L _))

  pub set_mode3-Travels :
      (v : SetNum3) → FitsSetMode3 v → Travels X L (xdr_set_mode3 X) zero_set_num v
  unfolding xdr_set_mode3
  set_mode3-Travels v fits = Sends-bind X L _ _ (boolean-Travels X L _ _) (
      Sends-bind X L _ _
        (case-Travels X L (v.set_it) (xdr_uint32 X) 0 _
          (λ h. uint32-Travels X L _ _ (fits.value.0 h)) fits.value.1)
        (Sends-pure X L _))

  pub set_size3-Travels :
      (v : SetNum3) → FitsSetSize3 v → Travels X L (xdr_set_size3 X) zero_set_num v
  unfolding xdr_set_size3
  set_size3-Travels v fits = Sends-bind X L _ _ (boolean-Travels X L _ _) (
      Sends-bind X L _ _
        (case-Travels X L (v.set_it) (xdr_uint64 X) 0 _
          (λ h. uint64-Travels X L _ _ (fits.value.0 h)) fits.value.1)
        (Sends-pure X L _))

  pub set_time-Travels :
      (v : SetTime) → FitsSetTime v → Travels X L (xdr_set_time X) zero_set_time v
  unfolding xdr_set_time
  set_time-Travels v fits = Sends-bind X L _ _ (uint32-Travels X L _ _ fits.set_it) (
      Sends-bind X L _ _
        (case-Travels X L (v.set_it == set_to_client_time) (xdr_nfstime3 X) zero_time _
          (λ h. nfstime3-Travels _ (fits.time.0 h)) fits.time.1)
        (Sends-pure X L _))

  pub sattr3-Travels : (v : Sattr3) → FitsSattr3 v → Travels X L (xdr_sattr3 X) zero_sattr3 v
  unfolding xdr_sattr3
  sattr3-Travels v fits = Sends-bind X L _ _ (set_mode3-Travels _ fits.mode) (
      Sends-bind X L _ _ (set_mode3-Travels _ fits.uid) (
        Sends-bind X L _ _ (set_mode3-Travels _ fits.gid) (
          Sends-bind X L _ _ (set_size3-Travels _ fits.size) (
            Sends-bind X L _ _ (set_time-Travels _ fits.atime)
              (Sends-bind X L _ _ (set_time-Travels _ fits.mtime) (Sends-pure X L _))))))

  pub diropargs3-Travels :
      (v : Diropargs3) → FitsDiropargs3 v → Travels X L (xdr_diropargs3 X) zero_diropargs3 v
  unfolding xdr_diropargs3
  diropargs3-Travels v fits =
      Sends-bind X L _ _ (nfs_fh3-Travels _ fits.dir)
        (Sends-bind X L _ _ (filename3-Travels X L _ _ fits.name) (Sends-pure X L _))
