-- ===== src/Simple/Ops.antt =====
-- simple/mkfs.go and simple/ops.go: the server's state, and the procedures that touch files. A
-- handler returns its reply and the server after it.
use go_nfsd.Prelude.{
  ℕ, Bool, true, false, Option, none, some, length, ltb, leb, ◌==◌, if◌then◌else◌, not, Outcome, ok,
  ◌>>=◌, make_bytes, sub64, ◌%◌, ◌^◌,
}
use go_nfsd.External.World.{World}
use go_nfsd.Nfstypes.{
  NfsFh3, Nfsstat3, nfs3_ok, nfs3err_inval, nfs3err_nospc, nfs3err_serverfault, nfs3err_io, Fattr3,
  nf3dir, zero_time, zero_specdata, file_sync,
}
use go_nfsd.Nfstypes.Replies.{
  GetattrArgs, GetattrRes, SetattrArgs, SetattrRes, ReadArgs, ReadRes, WriteArgs, WriteRes,
  CommitArgs, StatusRes, zero_getattr, zero_setattr, zero_read, zero_write,
}
use go_nfsd.Simple.Layout.{n_inode, make_fh}
use go_nfsd.Simple.Inode.{Inode, mk_fattr, read, write, write_inode, read_inode, inode_init}

module _ (W : World) where
  pub record Nfs : Type 0 where
    pub t : W.Log
    pub l : W.LockMap

  -- `Mkfs` on the log that `MkLog` made of the disk; `none` is nil.
  unfoldable pub mkfs : W.Log → Outcome (Option W.Log)
  mkfs log = do
    op ← inode_init W (W.begin log)
    let (done, log') = W.commit_wait log op true
    ok (if done then some log' else none)

  unfoldable pub recover : W.Log → Nfs
  recover log = record { t = log; l = W.mk_lock_map }

  unfoldable pub make_nfs : W.Log → Outcome (Option Nfs)
  make_nfs log = do
    op ← inode_init W (W.begin log)
    let (done, log') = W.commit_wait log op true
    ok (if done then some (record { t = log'; l = W.mk_lock_map }) else none)

  unfoldable pub fh2ino : NfsFh3 → Outcome ℕ
  fh2ino fh3 = do fh ← make_fh W fh3; ok fh.ino

  unfoldable pub root_fattr : Fattr3
  root_fattr = record {
    ftype = nf3dir;
    mode = 0o777;
    nlink = 1;
    uid = 0;
    gid = 0;
    size = 0;
    used = 0;
    rdev = zero_specdata;
    fsid = 0;
    fileid = W.rootinum;
    atime = zero_time;
    mtime = zero_time;
    ctime = zero_time;
  }

  unfoldable pub valid_inum : ℕ → Bool
  valid_inum inum =
      if inum == 0
      then false
      else if inum == W.rootinum
      then false
      else if leb (n_inode W) inum
      then false
      else true

  -- The status after `CommitWait`.
  abbrev pub commit_status : Bool → Nfsstat3 → Nfsstat3
  commit_status done failed = if done then nfs3_ok else failed

  unfoldable pub getattr_wp : GetattrRes → ℕ → W.Op → Outcome GetattrRes
  getattr_wp reply inum op = do
    ip ← read_inode W op inum
    ok (record reply { obj_attributes = mk_fattr ip })

  unfoldable pub getattr_internal : W.Log → GetattrRes → ℕ → W.Op → Outcome (GetattrRes × W.Log)
  getattr_internal log reply inum op = do
    reply' ← getattr_wp reply inum op
    let (done, log') = W.commit_wait log op true
    ok (record reply' { status = commit_status done nfs3err_serverfault }, log')

  -- `Acquire`, the body on the log, and `Release`.
  unfoldable pub with_lock :
      {R : Type 0} → Nfs → ℕ → (W.Log → Outcome (R × W.Log)) → Outcome (R × Nfs)
  with_lock nfs inum body = do
    let held = W.acquire nfs.l inum
    (reply, log') ← body nfs.t
    ok (reply, record { t = log'; l = W.release held inum })

  unfoldable pub nfsproc3_getattr : Nfs → GetattrArgs → Outcome (GetattrRes × Nfs)
  nfsproc3_getattr nfs args = do
    let txn = W.begin nfs.t
    inum ← fh2ino args.object
    if inum == W.rootinum
        then ok (record zero_getattr { status = nfs3_ok; obj_attributes = root_fattr }, nfs)
        else if not (valid_inum inum)
        then ok (record zero_getattr { status = nfs3err_inval }, nfs)
        else with_lock nfs inum (λ log. getattr_internal log zero_getattr inum txn)

  -- The reply, the operation and `ok`.
  unfoldable pub setattr_extend : SetattrRes → Inode → W.Op → ℕ → Outcome (SetattrRes × W.Op × Bool)
  setattr_extend reply ip op newsize = do
    bytes ← make_bytes (sub64 newsize ip.size)
    (ip', op', _, _) ← write W ip op ip.size (sub64 newsize ip.size) bytes
    ok (
        if not (ip'.size == newsize)
        then (record reply { status = nfs3err_nospc }, op', false)
        else (reply, op', true))

  unfoldable pub setattr_wp :
      SetattrArgs → SetattrRes → ℕ → W.Op → Outcome (SetattrRes × W.Op × Bool)
  setattr_wp args reply inum op = do
    ip ← read_inode W op inum
    let size = args.new_attributes.size
    if size.set_it
        then (if ltb ip.size size.value
            then setattr_extend reply ip op size.value
            else do op' ← write_inode W (record ip { size = size.value }) op; ok (reply, op', true))
        else ok (reply, op, true)

  unfoldable pub setattr_internal :
      W.Log → SetattrArgs → SetattrRes → ℕ → W.Op → Outcome (SetattrRes × W.Log)
  setattr_internal log args reply inum op = do
    (reply', op', ok1) ← setattr_wp args reply inum op
    let (ok2, log') = W.commit_wait log op' true
    ok (
        if not ok1
        then (reply', log)
        else (record reply' { status = commit_status ok2 nfs3err_serverfault }, log'))

  unfoldable pub nfsproc3_setattr : Nfs → SetattrArgs → Outcome (SetattrRes × Nfs)
  nfsproc3_setattr nfs args = do
    let txn = W.begin nfs.t
    inum ← fh2ino args.object
    if not (valid_inum inum)
        then ok (record zero_setattr { status = nfs3err_inval }, nfs)
        else with_lock nfs inum (λ log. setattr_internal log args zero_setattr inum txn)

  unfoldable pub read_wp : ReadArgs → ReadRes → ℕ → W.Op → Outcome ReadRes
  read_wp args reply inum op = do
    ip ← read_inode W op inum
    (bytes, eof) ← read W ip op args.offset args.count
    ok (record reply { count = length bytes % 2 ^ 32; bytes = bytes; eof = eof })

  unfoldable pub read_internal : W.Log → ReadArgs → ReadRes → ℕ → W.Op → Outcome (ReadRes × W.Log)
  read_internal log args reply inum op = do
    reply' ← read_wp args reply inum op
    let (done, log') = W.commit_wait log op true
    ok (record reply' { status = commit_status done nfs3err_serverfault }, log')

  unfoldable pub nfsproc3_read : Nfs → ReadArgs → Outcome (ReadRes × Nfs)
  nfsproc3_read nfs args = do
    let txn = W.begin nfs.t
    inum ← fh2ino args.file
    if not (valid_inum inum)
        then ok (record zero_read { status = nfs3err_inval }, nfs)
        else with_lock nfs inum (λ log. read_internal log args zero_read inum txn)

  unfoldable pub write_wp : WriteArgs → WriteRes → ℕ → W.Op → Outcome (WriteRes × W.Op × Bool)
  write_wp args reply inum op = do
    ip ← read_inode W op inum
    (_, op', count, writeok) ← write W ip op args.offset args.count args.bytes
    ok (
        if not writeok
        then (record reply { status = nfs3err_serverfault }, op', false)
        else (record reply { count = count % 2 ^ 32; committed = file_sync }, op', true))

  unfoldable pub write_internal :
      W.Log → WriteArgs → WriteRes → ℕ → W.Op → Outcome (WriteRes × W.Log)
  write_internal log args reply inum op = do
    (reply', op', ok1) ← write_wp args reply inum op
    let (ok2, log') = W.commit_wait log op' true
    ok (
        if not ok1
        then (reply', log)
        else (record reply' { status = commit_status ok2 nfs3err_serverfault }, log'))

  unfoldable pub nfsproc3_write : Nfs → WriteArgs → Outcome (WriteRes × Nfs)
  nfsproc3_write nfs args = do
    let txn = W.begin nfs.t
    inum ← fh2ino args.file
    if not (valid_inum inum)
        then ok (record zero_write { status = nfs3err_inval }, nfs)
        else with_lock nfs inum (λ log. write_internal log args zero_write inum txn)

  unfoldable pub nfsproc3_commit : Nfs → CommitArgs → Outcome (StatusRes × Nfs)
  nfsproc3_commit nfs args = do
    let op = W.begin nfs.t
    inum ← fh2ino args.file
    if not (valid_inum inum)
        then ok (record { status = nfs3err_inval }, nfs)
        else with_lock nfs inum (λ log.
          let (done, log') = W.commit_wait log op true in
          ok (record { status = commit_status done nfs3err_io }, log'))
