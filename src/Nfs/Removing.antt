-- ===== src/Nfs/Removing.antt =====
-- nfs/nfs_ops.go: REMOVE and RMDIR.
use go_nfsd.Prelude.{ℕ, Bool, true, false, not, ◌==◌, if◌then◌else◌, Option, none, some}
use go_nfsd.External.World.{World}
use go_nfsd.Programs.{◌>>=◌, ◌>>◌, pure}
use go_nfsd.Nfstypes.{Bytes, Nfsstat3, nfs3_ok, nfs3err_io, nfs3err_inval, nf3dir, NfsFh3}
use go_nfsd.Nfstypes.Replies.{StatusRes}
use go_nfsd.Nfstypes.Procs.{RemoveArgs}
use go_nfsd.Fstxn.State.{FsProg}
use go_nfsd.Fstxn.Inodes.{load}
use go_nfsd.Dir.Entries.{illegal_name}
use go_nfsd.Dir.Names.{rem_name, is_dir_empty}
use go_nfsd.Nfs.Locking.{Inodes, inode_at, get_inodes_locked}
use go_nfsd.Nfs.Session.{NfsProg, is_ok, on_op, err_ret_at, commit_reply_at}
use go_nfsd.Nfs.Creating.{do_dec_link}

module _ (W : World) where
  -- The checks of RMDIR on the inode of the name.
  unfoldable pub refuses_dir : Bool → Inodes → FsProg W Bool
  refuses_dir isdir inodes = if not isdir then pure false else (do
    p ← inode_at W inodes 0
    i ← load W p
    if not (i.kind == nf3dir) then pure true else (do empty ← is_dir_empty W p; pure (not empty)))

  -- The transaction that is returned, which is nil for "." and "..", and the status.
  unfoldable pub do_remove : ℕ → NfsFh3 → Bytes → Bool → NfsProg W (Option (Unit {0}) × Nfsstat3)
  do_remove rounds dfh name isdir = if illegal_name name then pure (none, nfs3err_inval) else (do
    (inodes, err) ← on_op W (get_inodes_locked W rounds dfh name)
    if not (is_ok err) then pure (some tt, err) else (do
      refuses ← on_op W (refuses_dir isdir inodes)
      if refuses then pure (some tt, nfs3err_inval) else (do
        dip ← on_op W (inode_at W inodes 1)
        done ← on_op W (rem_name W dip name)
        if not done then pure (some tt, nfs3err_io) else (do
          ip ← on_op W (inode_at W inodes 0)
          do_dec_link W ip
          pure (some tt, nfs3_ok)))))

  -- The bodies of REMOVE and RMDIR.
  unfoldable pub remove_reply : ℕ → RemoveArgs → Bool → NfsProg W StatusRes
  remove_reply rounds args isdir = do
    (op, err) ← do_remove rounds args.object.dir args.object.name isdir
    status ← if is_ok err then commit_reply_at W op else err_ret_at W op err
    pure (record { status = status })

  unfoldable pub nfsproc3_remove : ℕ → RemoveArgs → NfsProg W StatusRes
  nfsproc3_remove rounds args = remove_reply rounds args false

  unfoldable pub nfsproc3_rmdir : ℕ → RemoveArgs → NfsProg W StatusRes
  nfsproc3_rmdir rounds args = remove_reply rounds args true
