-- ===== src/Nfs/Files.antt =====
-- nfs/nfs_ops.go: the procedures on one inode.
use go_nfsd.Prelude.{
  ℕ, ◌%◌, ◌^◌, ◌||◌, length, Bool, true, false, not, ltb, leb, ◌==◌, if◌then◌else◌, add64, ok,
  panic, [],
}
use go_nfsd.External.World.{World}
use go_nfsd.Programs.{◌>>=◌, ◌>>◌, pure, when, if_nil, gets}
use go_nfsd.Nfstypes.{
  Bytes, Nfsstat3, nfs3_ok, nfs3err_stale, nfs3err_inval, nfs3err_nospc, nfs3err_io,
  nfs3err_serverfault, nf3reg, nf3lnk, NfsFh3, Nfstime3, PostOpAttr, SetTime, SetNum3, dont_change,
  set_to_client_time, StableHow, data_sync, file_sync,
}
use go_nfsd.Nfstypes.Replies.{
  GetattrArgs, GetattrRes, SetattrArgs, ReadArgs, ReadRes, WriteArgs, CommitArgs, StatusRes,
  zero_getattr, zero_read,
}
use go_nfsd.Nfstypes.Procs.{
  SetattrWccRes, ReadlinkArgs, ReadlinkRes, WriteWccRes, zero_setattr_wcc, zero_readlink,
  zero_write_wcc,
}
use go_nfsd.Inode.Layout.{Inode, mk_fattr, write_inode}
use go_nfsd.Inode.Data.{read, write}
use go_nfsd.Inode.Sizes.{resize}
use go_nfsd.Fstxn.State.{FsProg, begin_again, on_inode}
use go_nfsd.Fstxn.Inodes.{load, get_inode_fh}
use go_nfsd.Fstxn.Commit.{commit, commit_data, commit_unstable, commit_fh}
use go_nfsd.Dir.Apply.{first_two}
use go_nfsd.Nfs.Session.{
  NfsProg, is_ok, on_op, err_ret, commit_reply, deref, start_shrinker, get_shrink,
}

-- The attributes of a file after an operation.
abbrev pub post_op_attr : Inode → PostOpAttr
unfolding mk_fattr
post_op_attr ip = record { attributes_follow = true; attributes = mk_fattr ip }

module _ (W : World) where
  unfoldable pub nfsproc3_getattr : GetattrArgs → NfsProg W GetattrRes
  nfsproc3_getattr args = do
    on_op W (begin_again W)
    found ← on_op W (get_inode_fh W args.object)
    if_nil found
        (do status ← err_ret W nfs3err_stale; pure (record zero_getattr { status = status }))
        λ p. (do
          ip ← on_op W (load W p)
          status ← commit_reply W
          pure (record { status = status; obj_attributes = mk_fattr ip }))

  -- An inode with a change, written.
  unfoldable pub change_inode : ℕ → (Inode → Inode) → FsProg W (Unit {0})
  change_inode p f =
      on_inode W p (λ i atxn. elim (write_inode W (f i) atxn) [
        | ok atxn' ↦ ok (tt, f i, atxn')
        | panic ↦ panic
      ])

  unfoldable pub set_time :
      ℕ → SetTime → Nfstime3 → (Nfstime3 → Inode → Inode) → FsProg W (Unit {0})
  set_time p how now f =
      when (not (how.set_it == dont_change))
        (change_inode p (f (if how.set_it == set_to_client_time then how.time else now)))

  unfoldable pub set_size : ℕ → SetNum3 → NfsProg W (Unit {0})
  set_size p how = when how.set_it (do
    shrink ← on_op W (on_inode W p (λ i atxn. resize W i atxn how.value))
    ip ← on_op W (load W p)
    when shrink (start_shrinker W ip.inum))

  -- Mode, uid and gid are not changed. `err` stays NFS3_OK from here on.
  unfoldable pub nfsproc3_setattr : ℕ → Nfstime3 → SetattrArgs → NfsProg W SetattrWccRes
  nfsproc3_setattr rounds now args = do
    (found, err) ← get_shrink W rounds args.object
    if not (is_ok err)
        then (do status ← err_ret W err; pure (record zero_setattr_wcc { status = status }))
        else (do
          p ← deref W found
          let attrs = args.new_attributes
          set_size p attrs.size
          on_op W (set_time p attrs.atime now (λ t i. record i { atime = t }))
          on_op W (set_time p attrs.mtime now (λ t i. record i { mtime = t }))
          ip ← on_op W (load W p)
          status ← commit_reply W
          pure (record { status = status; obj_wcc = post_op_attr ip }))

  -- The bytes, `eof` and the status; a symbolic link is read up to its size.
  unfoldable pub do_read : NfsFh3 → ℕ → ℕ → ℕ → FsProg W (Bytes × Bool × Nfsstat3)
  do_read fh kind offset count = do
    begin_again W
    found ← get_inode_fh W fh
    if_nil found (pure ([], false, nfs3err_stale)) λ p. (do
      ip ← load W p
      if not (ip.kind == kind) then pure ([], false, nfs3err_inval) else (do
        let read_count = if ip.kind == nf3lnk then ip.size else count
        (bytes, eof) ← on_inode W p (λ i atxn. first_two (read W i atxn offset read_count))
        pure (bytes, eof, nfs3_ok)))

  unfoldable pub nfsproc3_read : ReadArgs → NfsProg W ReadRes
  nfsproc3_read args = do
    (bytes, eof, err) ← on_op W (do_read args.file nf3reg args.offset args.count)
    if not (is_ok err)
        then (do status ← err_ret W err; pure (record zero_read { status = status }))
        else (do
          status ← commit_reply W
          pure
              (record { status = status; count = length bytes % 2 ^ 32; eof = eof; bytes = bytes }))

  unfoldable pub nfsproc3_readlink : ReadlinkArgs → NfsProg W ReadlinkRes
  nfsproc3_readlink args = do
    (bytes, _, err) ← on_op W (do_read args.symlink nf3lnk 0 0)
    if not (is_ok err)
        then (do status ← err_ret W err; pure (record zero_readlink { status = status }))
        else (do status ← commit_reply W; pure (record { status = status; path = bytes }))

  -- The stability of a write: without support for unstable writes it is raised to FILE_SYNC.
  unfoldable pub stability : Bool → StableHow → StableHow
  stability unstable_ok how = if unstable_ok then how else file_sync

  unfoldable pub commit_as : StableHow → FsProg W Bool
  commit_as how =
      if how == file_sync
      then commit W
      else if how == data_sync
      then commit_data W
      else commit_unstable W

  unfoldable pub refuse_write : Nfsstat3 → NfsProg W WriteWccRes
  refuse_write err = do status ← err_ret W err; pure (record zero_write_wcc { status = status })

  -- WRITE to the inode at `p`, from the check of its kind on.
  unfoldable pub write_to : ℕ → WriteArgs → NfsProg W WriteWccRes
  write_to p args = do
    ip ← on_op W (load W p)
    if not (ip.kind == nf3reg) || leb W.log_bytes args.count
        then refuse_write nfs3err_inval
        else (do
          (count, done) ← on_op W (
              on_inode W p (λ i atxn. first_two (write W i atxn args.offset args.count args.bytes)))
          if not done then refuse_write nfs3err_nospc else (do
            unstable_ok ← gets (λ s. s.unstable)
            let how = stability unstable_ok args.stable
            done ← on_op W (commit_as how)
            ip ← on_op W (load W p)
            pure (
                if done
                then record {
                  status = nfs3_ok;
                  file_wcc = post_op_attr ip;
                  count = count % 2 ^ 32;
                  committed = how;
                }
                else record zero_write_wcc { status = nfs3err_serverfault })))

  unfoldable pub nfsproc3_write : ℕ → WriteArgs → NfsProg W WriteWccRes
  nfsproc3_write rounds args = do
    (found, err) ← get_shrink W rounds args.file
    if not (is_ok err) then refuse_write err else (do p ← deref W found; write_to p args)

  unfoldable pub nfsproc3_commit : CommitArgs → NfsProg W StatusRes
  nfsproc3_commit args = do
    on_op W (begin_again W)
    found ← on_op W (get_inode_fh W args.file)
    status ← if_nil found (err_ret W nfs3err_stale) λ p. (do
      ip ← on_op W (load W p)
      if not (ip.kind == nf3reg)
          then err_ret W nfs3err_inval
          else if ltb ip.size (add64 args.offset args.count)
          then err_ret W nfs3err_inval
          else (do
            done ← on_op W (commit_fh W)
            if done then pure nfs3_ok else err_ret W nfs3err_io))
    pure (record { status = status })
