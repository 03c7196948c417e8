-- ===== src/Nfs/Creating.antt =====
-- nfs/nfs_ops.go: LOOKUP, and the procedures that make and remove names.
use go_nfsd.Prelude.{
  ℕ, zero, suc, ◌+◌, ◌%◌, ◌^◌, length, Bool, true, false, not, ◌==◌, if◌then◌else◌, Option, none,
  some, ok, panic, [],
}
use go_nfsd.External.World.{World}
use go_nfsd.Programs.{◌>>=◌, ◌>>◌, pure, when, out_of_rounds, lift, if_nil}
use go_nfsd.Nfstypes.{
  Bytes, Nfsstat3, nfs3_ok, nfs3err_stale, nfs3err_exist, nfs3err_nospc, nfs3err_serverfault,
  nfs3err_io, nfs3err_notsupp, nf3reg, nf3dir, nf3lnk, NfsFh3, Nfstime3, Fattr3, Diropargs3,
  zero_fh, zero_fattr,
}
use go_nfsd.Nfstypes.Replies.{LookupArgs}
use go_nfsd.Nfstypes.Procs.{
  LookupAttrRes, zero_lookup_attr, exclusive, CreateArgs, MkdirArgs, SymlinkArgs, CreateRes,
  zero_create,
}
use go_nfsd.Fh.{make_fh3}
use go_nfsd.Inode.Layout.{mk_fattr, free_inode, dec_link}
use go_nfsd.Inode.Data.{write}
use go_nfsd.Inode.Sizes.{is_shrinking, resize}
use go_nfsd.Fstxn.State.{FsProg, begin_again, on_inode}
use go_nfsd.Fstxn.Inodes.{load, get_inode_fh, alloc_inode}
use go_nfsd.Dir.Apply.{first_two}
use go_nfsd.Dir.Names.{lookup_name, add_name, init_dir}
use go_nfsd.Nfs.Locking.{inode_at, get_inodes_locked}
use go_nfsd.Nfs.Session.{
  NfsProg, is_ok, on_op, err_ret, commit_reply, deref, start_shrinker, shrink_first,
}
use go_nfsd.Nfs.Files.{post_op_attr, change_inode}

module _ (W : World) where
  unfoldable pub nfsproc3_lookup : ℕ → LookupArgs → NfsProg W LookupAttrRes
  nfsproc3_lookup rounds args = do
    (inodes, err) ← on_op W (get_inodes_locked W rounds args.what.dir args.what.name)
    if not (is_ok err)
        then (do status ← err_ret W err; pure (record zero_lookup_attr { status = status }))
        else (do
          p ← on_op W (inode_at W inodes 0)
          i ← on_op W (load W p)
          fh3 ← lift (make_fh3 W (record { ino = i.inum; gen = i.gen }))
          status ← commit_reply W
          pure (record { status = status; object = fh3; obj_attributes = post_op_attr i }))

  -- The directory, the new inode and the status.
  unfoldable pub get_alloc :
      ℕ → ℕ → Nfstime3 → NfsFh3 → Bytes → ℕ → NfsProg W (Option ℕ × Option ℕ × Nfsstat3)
  get_alloc zero rounds now dfh name kind = out_of_rounds
  get_alloc (suc n) rounds now dfh name kind = do
    found ← on_op W (get_inode_fh W dfh)
    if_nil found (pure (none, none, nfs3err_stale)) λ dip. (do
      (inum, _) ← on_op W (lookup_name W dip name)
      if not (inum == W.nullinum) then pure (some dip, none, nfs3err_exist) else (do
        got ← on_op W (alloc_inode W kind now)
        if_nil got (pure (some dip, none, nfs3err_nospc)) λ ip. (do
          i ← on_op W (load W ip)
          if not (is_shrinking W i) then pure (some dip, some ip, nfs3_ok) else (do
            done ← shrink_first W rounds i.inum
            if not done
                then pure (some dip, some ip, nfs3err_serverfault)
                else get_alloc n rounds now dfh name kind))))

  unfoldable pub do_dec_link : ℕ → NfsProg W (Unit {0})
  do_dec_link ip = do
    last ← on_op W (on_inode W ip (λ i atxn. dec_link W i atxn))
    when last (do
      shrink ← on_op W (on_inode W ip (λ i atxn. resize W i atxn 0))
      on_op W (
          on_inode W ip (λ i atxn. elim (free_inode W i atxn) [
            | ok (i, atxn) ↦ ok (tt, i, atxn)
            | panic ↦ panic
          ]))
      i ← on_op W (load W ip)
      when shrink (start_shrinker W i.inum))

  -- What `doCreate` writes to a new inode: the entries of a directory, or the path of a link.
  unfoldable pub fill_new : ℕ → ℕ → ℕ → Bytes → FsProg W Bool
  fill_new dip ip kind bytes =
      if kind == nf3dir
      then (do
        d ← load W dip
        done ← init_dir W ip d.inum
        if not done then pure false else (do
          change_inode W dip (λ i. record i { nlink = (i.nlink + 1) % 2 ^ 32 })
          pure true))
      else if kind == nf3lnk
      then (do
        (_, done) ← on_inode W ip (λ i atxn. first_two (write W i atxn 0 (length bytes) bytes))
        pure done)
      else pure true

  -- The status, the handle and the attributes, for a directory and a new inode that `getAlloc` found.
  unfoldable pub add_new : ℕ → ℕ → Bytes → ℕ → Bytes → NfsProg W (Nfsstat3 × NfsFh3 × Fattr3)
  add_new dip ip name kind bytes = do
    filled ← on_op W (fill_new dip ip kind bytes)
    if not filled then (do do_dec_link ip; pure (nfs3err_nospc, zero_fh, zero_fattr)) else (do
      new ← on_op W (load W ip)
      added ← on_op W (add_name W dip new.inum name)
      if not added then (do do_dec_link ip; pure (nfs3err_io, zero_fh, zero_fattr)) else (do
        i ← on_op W (load W ip)
        fh3 ← lift (make_fh3 W (record { ino = i.inum; gen = i.gen }))
        pure (nfs3_ok, fh3, mk_fattr i)))

  unfoldable pub do_create :
      ℕ → Nfstime3 → NfsFh3 → Bytes → ℕ → Bytes → NfsProg W (Nfsstat3 × NfsFh3 × Fattr3)
  do_create rounds now dfh name kind bytes = do
    on_op W (begin_again W)
    (dir, new, err) ← get_alloc rounds rounds now dfh name kind
    if not (is_ok err)
        then pure (err, zero_fh, zero_fattr)
        else if_nil new (pure (nfs3err_nospc, zero_fh, zero_fattr))
            λ ip. (do dip ← deref W dir; add_new dip ip name kind bytes)

  -- The ends of CREATE, MKDIR and SYMLINK.
  unfoldable pub create_reply : ℕ → Nfstime3 → Diropargs3 → ℕ → Bytes → NfsProg W CreateRes
  create_reply rounds now location kind bytes = do
    (err, fh3, fattr) ← do_create rounds now location.dir location.name kind bytes
    if not (is_ok err)
        then (do status ← err_ret W err; pure (record zero_create { status = status }))
        else (do
          status ← commit_reply W
          pure (record {
            status = status;
            obj = record { handle_follows = true; handle = fh3 };
            obj_attributes = record { attributes_follow = true; attributes = fattr };
          }))

  unfoldable pub nfsproc3_create : ℕ → Nfstime3 → CreateArgs → NfsProg W CreateRes
  nfsproc3_create rounds now args =
      if args.how.mode == exclusive
      then pure (record zero_create { status = nfs3err_notsupp })
      else create_reply rounds now args.location nf3reg []

  unfoldable pub nfsproc3_mkdir : ℕ → Nfstime3 → MkdirArgs → NfsProg W CreateRes
  nfsproc3_mkdir rounds now args = create_reply rounds now args.location nf3dir []

  unfoldable pub nfsproc3_symlink : ℕ → Nfstime3 → SymlinkArgs → NfsProg W CreateRes
  nfsproc3_symlink rounds now args =
      create_reply rounds now args.location nf3lnk args.symlink.symlink_data
