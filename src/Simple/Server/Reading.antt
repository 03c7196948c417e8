-- ===== src/Simple/Server/Reading.antt =====
-- GETATTR, READ and COMMIT of simple/ops.go: they answer from the contents and change none.
use go_nfsd.Prelude.{
  ℕ, ◌+◌, ◌%◌, ◌^◌, ◌≡◌, true, false, length, take, drop, leb, IsU64, ok, if◌then◌else◌, arith,
  ◌==◌,
}
use go_nfsd.External.World.{World, WorldLaws}
use go_nfsd.Nfstypes.{Bytes, Nfsstat3, nfs3_ok, nfs3err_io, nf3reg}
use go_nfsd.Nfstypes.Replies.{GetattrArgs, GetattrRes, ReadArgs, ReadRes, CommitArgs}
use go_nfsd.Simple.Inode.{mk_fattr}
use go_nfsd.Simple.Ops.{
  Nfs, fh2ino, valid_inum, nfsproc3_getattr, getattr_internal, getattr_wp, nfsproc3_read,
  read_internal, read_wp, nfsproc3_commit, with_lock,
}
use go_nfsd.Simple.Blocks.{valid_inum-lt}
use go_nfsd.Simple.Files.{read_inode_lem}
use go_nfsd.Simple.Files.Reads.{read_lem}
use go_nfsd.Simple.Server.{Serves, Commits, with_lock-Commits, commit_same-Files}

-- The reply of READ for the content `f`.
abbrev pub read_reply : Bytes → ReadArgs → Nfsstat3 → ReadRes
read_reply f args status = record {
  status = status;
  count = length (take args.count (drop args.offset f)) % 2 ^ 32;
  eof = leb (length f) (args.offset + args.count);
  bytes = take args.count (drop args.offset f);
}

-- The reply of GETATTR for file `inum` with the content `f`: a regular file that everyone may read,
-- write and execute, with one link, and the length of `f` as its size and as the bytes it uses.
abbrev pub getattr_reply : ℕ → Bytes → Nfsstat3 → GetattrRes
getattr_reply inum f status = record {
  status = status;
  obj_attributes = record {
    ftype = nf3reg;
    mode = 511;
    nlink = 1;
    uid = 0;
    gid = 0;
    size = length f;
    used = length f;
    rdev = record { specdata1 = 0; specdata2 = 0 };
    fsid = 0;
    fileid = inum;
    atime = record { seconds = 0; nseconds = 0 };
    mtime = record { seconds = 0; nseconds = 0 };
    ctime = record { seconds = 0; nseconds = 0 };
  };
}

module _ (W : World) (H : WorldLaws W) (nfs : Nfs W) {F : ℕ → Bytes} (serves : Serves W H nfs F)
    (inum : ℕ) (valid : valid_inum W inum ≡ true) where
  -- READ of a file that the server holds, from an offset that is a 64-bit word, returns the bytes of
  -- its content from the offset on, as many as asked for or left, whether they reach its end, and the number of bytes; the contents
  -- and the locks stay as they are, whatever the commit does.
  pub nfsproc3_read_lem :
      (args : ReadArgs)
      → fh2ino W args.file ≡ ok inum
      → IsU64 args.offset
      → Commits W H nfs F F (read_reply (F inum) args) (nfsproc3_read W nfs args)
  unfolding nfsproc3_read read_internal read_wp
  nfsproc3_read_lem args fh small =
      let held = serves inum valid in
      let op = W.begin nfs.t in
      let inode = read_inode_lem W H inum (valid_inum-lt W H inum valid) held in
      let bytes = read_lem W H inum args.offset args.count held small in
      rw (fh, valid)
        (with_lock-Commits W H nfs inum (read_reply (F inum) args) _ op serves serves
          (rw (inode, bytes)))

  valid→not_root : (inum == W.rootinum) ≡ false
  unfolding valid_inum
  valid→not_root = ground arith

  -- GETATTR of a file that the server holds reports a regular file of mode 0777 with one link, with
  -- the length of its content as its size, with its number as its id and with zero times; it changes
  -- neither contents nor locks.
  pub nfsproc3_getattr_lem :
      (args : GetattrArgs)
      → fh2ino W args.object ≡ ok inum
      → Commits W H nfs F F (getattr_reply inum (F inum)) (nfsproc3_getattr W nfs args)
  unfolding nfsproc3_getattr getattr_internal getattr_wp mk_fattr
  nfsproc3_getattr_lem args fh =
      let held = serves inum valid in
      let inode = read_inode_lem W H inum (valid_inum-lt W H inum valid) held in
      rw (fh, valid→not_root, valid)
        (with_lock-Commits W H nfs inum (getattr_reply inum (F inum)) _ (W.begin nfs.t) serves
          serves (rw inode))

  -- COMMIT of a file that the server holds changes no content and no lock; it replies with NFS3_OK,
  -- or with IO if the journal's commit fails.
  pub nfsproc3_commit_lem :
      (args : CommitArgs)
      → fh2ino W args.file ≡ ok inum
      → (nfsproc3_commit W nfs args
          ≡ ok (
            record {
              status = if (W.commit_wait nfs.t (W.begin nfs.t) true).0 then nfs3_ok else nfs3err_io;
            },
            record { t = (W.commit_wait nfs.t (W.begin nfs.t) true).1; l = nfs.l },
          ))
        × Serves W H (record { t = (W.commit_wait nfs.t (W.begin nfs.t) true).1; l = nfs.l }) F
  unfolding nfsproc3_commit with_lock
  nfsproc3_commit_lem args fh =
      (rw (fh, valid, H.release-acquire nfs.l inum), commit_same-Files W H nfs.t serves)
