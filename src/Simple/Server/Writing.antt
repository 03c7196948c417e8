-- ===== src/Simple/Server/Writing.antt =====
-- WRITE of simple/ops.go: all of the data is written or nothing.
use go_nfsd.Prelude.{ℕ, ◌+◌, ◌%◌, ◌^◌, ◌≤◌, ◌<◌, ◌≡◌, ◌≢◌, ◌⊎◌, true, length, ok, write_at}
use go_nfsd.External.World.{World, WorldLaws}
use go_nfsd.Nfstypes.{Bytes, Nfsstat3, nfs3err_serverfault, file_sync, unstable}
use go_nfsd.Nfstypes.Replies.{WriteArgs, WriteRes}
use go_nfsd.Simple.Ops.{Nfs, fh2ino, valid_inum, nfsproc3_write, write_internal, write_wp}
use go_nfsd.Simple.Blocks.{valid_inum-lt}
use go_nfsd.Simple.Files.{inode_of, read_inode_lem}
use go_nfsd.Simple.Files.Writes.{write_counted, write_refused}
use go_nfsd.Simple.Server.{update, Serves, Commits, with_lock-Commits, with_lock_same, update-Files}

abbrev pub write_reply : WriteArgs → Nfsstat3 → WriteRes
write_reply args status = record {
  status = status;
  count = args.count % 2 ^ 32;
  committed = file_sync;
}

module _ (W : World) (H : WorldLaws W) (nfs : Nfs W) {F : ℕ → Bytes} (serves : Serves W H nfs F)
    (inum : ℕ) (valid : valid_inum W inum ≡ true) (args : WriteArgs)
    (fh : fh2ino W args.file ≡ ok inum) where
  -- WRITE to a file that the server holds, of data that has the announced length, starts inside the
  -- file or at its end and fits the block, commits the content with the data written at the offset,
  -- and no other file changes; it replies with the full count and FILE_SYNC.
  pub nfsproc3_write_lem :
      args.count ≡ length args.bytes
      → args.offset ≤ length (F inum)
      → args.offset + length args.bytes ≤ W.block_size
      → Commits W H nfs F
          (update F inum (write_at (F inum) args.offset args.bytes))
          (write_reply args)
          (nfsproc3_write W nfs args)
  unfolding nfsproc3_write write_internal write_wp
  nfsproc3_write_lem counted start room =
      let held = serves inum valid in
      let inode = read_inode_lem W H inum (valid_inum-lt W H inum valid) held in
      let (op, run, new, kept) =
        write_counted W H inum args.offset args.bytes held start room args.count counted in
      rw (fh, valid)
        (with_lock-Commits W H nfs inum (write_reply args) _ op serves
          (update-Files W H inum (write_at (F inum) args.offset args.bytes) serves new kept)
          (rw (inode, run)))

  -- WRITE to a file that the server holds, of data of another length than announced, beyond the end of
  -- the file or past the end of the block, fails with SERVERFAULT; the server is as it was.
  pub nfsproc3_write_refused :
      (args.count ≢ length args.bytes)
        ⊎ (W.block_size < args.offset + args.count)
        ⊎ (length (F inum) < args.offset)
      → nfsproc3_write W nfs args
        ≡ ok (record { status = nfs3err_serverfault; count = 0; committed = unstable }, nfs)
  unfolding nfsproc3_write write_internal write_wp
  nfsproc3_write_refused bad =
      let held = serves inum valid in
      let inode = read_inode_lem W H inum (valid_inum-lt W H inum valid) held in
      let refused =
        write_refused W H (W.begin nfs.t) (inode_of W inum (F inum)) args.offset args.count
          args.bytes bad in
      rw (fh, valid) (with_lock_same W H nfs inum _ (rw (inode, refused)))
