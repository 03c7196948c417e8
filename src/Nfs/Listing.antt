-- ===== src/Nfs/Listing.antt =====
-- nfs/nfs_ls.go and nfs/nfs_ops.go: READDIR and READDIRPLUS, and the procedures with fixed answers.
use go_nfsd.Prelude.{
  ℕ, ◌+◌, ◌*◌, ◌%◌, ◌^◌, true, false, not, ◌==◌, if◌then◌else◌, List, [], ◌∷◌, ◌++◌, map, Option,
  none, some,
}
use go_nfsd.External.World.{World}
use go_nfsd.Programs.{◌>>=◌, ◌>>◌, pure, lift, if_nil}
use go_nfsd.Nfstypes.{
  Nfsstat3, nfs3_ok, nfs3err_inval, nfs3err_stale, nfs3err_notsupp, nf3dir, NfsFh3,
}
use go_nfsd.Nfstypes.Replies.{StatusRes, AccessRes, Entry3, Dirlist3, ReaddirRes}
use go_nfsd.Nfstypes.Procs.{
  ReaddirArgs, Entryplus3, Dirlistplus3, ReaddirplusArgs, ReaddirplusRes, FsinfoAllRes, PathconfRes,
  zero_dirlistplus,
}
use go_nfsd.Fh.{make_fh3}
use go_nfsd.Inode.Layout.{max_file_size}
use go_nfsd.Fstxn.State.{FsProg, begin_again, on_inode}
use go_nfsd.Fstxn.Inodes.{load, get_inode_fh}
use go_nfsd.Dir.Entries.{DirEnt, maxnamelen}
use go_nfsd.Dir.Scan.{apply_ents}
use go_nfsd.Dir.Apply.{first_two, Visit, apply}
use go_nfsd.Nfs.Session.{NfsProg, on_op, err_ret, commit_reply}
use go_nfsd.Nfs.Files.{post_op_attr}

-- An entry that the function given to `ApplyEnts` makes.
unfoldable pub mk_entry : DirEnt × ℕ → Entry3
mk_entry (de, off) = record { fileid = de.inum; name = de.name; cookie = off }

module _ (W : World) where
  -- The function that `Ls3` gives to `Apply`: it puts an entry at the end of the list.
  unfoldable pub list_entry : Visit W (List Entryplus3)
  list_entry entries p name inum off = do
    i ← load W p
    fh3 ← lift (make_fh3 W (record { ino = i.inum; gen = i.gen }))
    let e : Entryplus3 = record {
      fileid = inum;
      name = name;
      cookie = off;
      name_attributes = post_op_attr i;
      name_handle = record { handle_follows = true; handle = fh3 };
    }
    pure (entries ++ (e ∷ []))

  unfoldable pub ls3 : ℕ → ℕ → ℕ → ℕ → FsProg W Dirlistplus3
  ls3 dip start dircount maxcount = do
    (entries, eof) ← apply W dip start dircount maxcount list_entry []
    pure (record { entries = entries; eof = eof })

  unfoldable pub readdir3 : ℕ → ℕ → ℕ → FsProg W Dirlist3
  readdir3 dip start count = do
    (ents, eof) ← on_inode W dip (λ i atxn. first_two (apply_ents W i atxn start count))
    pure (record { entries = map mk_entry ents; eof = eof })

  -- The directory of a handle, or the status of a refusal.
  unfoldable pub get_dir : NfsFh3 → FsProg W (Option ℕ × Nfsstat3)
  get_dir fh3 = do
    begin_again W
    found ← get_inode_fh W fh3
    if_nil found (pure (none, nfs3err_stale)) λ p. (do
      ip ← load W p
      pure (if not (ip.kind == nf3dir) then (none, nfs3err_inval) else (some p, nfs3_ok)))

  unfoldable pub nfsproc3_readdir : ReaddirArgs → NfsProg W ReaddirRes
  nfsproc3_readdir args = do
    (found, err) ← on_op W (get_dir args.dir)
    if_nil found
        (do
          status ← err_ret W err
          pure (record { status = status; reply = record { entries = []; eof = false } }))
        λ p. (do
          dirlist ← on_op W (readdir3 p args.cookie args.count)
          status ← commit_reply W
          pure (record { status = status; reply = dirlist }))

  unfoldable pub nfsproc3_readdirplus : ReaddirplusArgs → NfsProg W ReaddirplusRes
  nfsproc3_readdirplus args = do
    (found, err) ← on_op W (get_dir args.dir)
    if_nil found
        (do status ← err_ret W err; pure (record { status = status; reply = zero_dirlistplus }))
        λ p. (do
          dirlist ← on_op W (ls3 p args.cookie args.dircount args.maxcount)
          status ← commit_reply W
          pure (record { status = status; reply = dirlist }))

  -- FSF3_HOMOGENEOUS and FSF3_SYMLINK are different bits, or'd.
  unfoldable pub nfsproc3_fsinfo : NfsProg W FsinfoAllRes
  nfsproc3_fsinfo = do
    on_op W (begin_again W)
    status ← commit_reply W
    pure (record {
      status = status;
      rtmax = 16 * 4096;
      rtpref = 16 * 4096;
      rtmult = 4096;
      wtmax = W.log_bytes % 2 ^ 32;
      wtpref = 16 * 4096;
      wtmult = 4096;
      dtpref = 16 * 4096;
      maxfilesize = max_file_size W;
      properties = 0x0008 + 0x0002;
    })

  unfoldable pub nfsproc3_pathconf : NfsProg W PathconfRes
  nfsproc3_pathconf = pure (record {
    status = nfs3_ok;
    linkmax = 1;
    name_max = maxnamelen;
    no_trunc = true;
    case_preserving = true;
  })

  -- READ, LOOKUP, MODIFY, EXTEND, DELETE and EXECUTE: six different bits, or'd.
  unfoldable pub nfsproc3_access : NfsProg W AccessRes
  nfsproc3_access =
      pure (record { status = nfs3_ok; access = 0x01 + 0x02 + 0x04 + 0x08 + 0x10 + 0x20 })

  -- MKNOD, LINK and FSSTAT.
  unfoldable pub not_supported : NfsProg W StatusRes
  not_supported = pure (record { status = nfs3err_notsupp })
