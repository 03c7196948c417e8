-- ===== src/Nfs/Locks/Requests.antt =====
-- nfs/: every request gives back the locks that it takes.
use go_nfsd.Prelude.{ℕ, refl, List, [], ◌∷◌}
use go_nfsd.External.World.{World, WorldLaws}
use go_nfsd.Programs.Keeps.{Ensures-if_nil, Goes, Goes-pure}
use go_nfsd.Nfstypes.{NfsFh3, Nfstime3}
use go_nfsd.Nfstypes.Procs.{ReaddirArgs, ReaddirplusArgs}
use go_nfsd.Fstxn.Owned.{Owned, Rested}
use go_nfsd.Fstxn.Locks.{
  begin_again-Owned, get_inode_fh-Owned, load-Owned, on_inode-Owned, via_owned,
}
use go_nfsd.Dir.Inums.{apply_ents-inum}
use go_nfsd.Dir.Locks.{
  first_two-inum, QuietVisit, Leaves-bind, Leaves-load, Leaves-lift, Leaves-pure, apply-Owned,
}
use go_nfsd.Nfs.Listing.{
  list_entry, ls3, readdir3, get_dir, nfsproc3_readdir, nfsproc3_readdirplus, nfsproc3_fsinfo,
  nfsproc3_pathconf, nfsproc3_access, not_supported,
}
use go_nfsd.Nfs.Requests.{
  Request, null, getattr, setattr, lookup, access, readlink, read_file, write_file, create, mkdir,
  symlink, mknod, remove, rmdir, rename, link, readdir, readdirplus, fsstat, fsinfo, pathconf,
  commit_file, handle, serve_requests,
}
use go_nfsd.Nfs.Locks.{Idle, on_locked, on_start, via_locked, via_free, begins}
use go_nfsd.Nfs.Locks.Files.{
  refused, replied, nfsproc3_getattr-Idle, nfsproc3_setattr-Idle, nfsproc3_read-Idle,
  nfsproc3_readlink-Idle, nfsproc3_write-Idle, nfsproc3_commit-Idle,
}
use go_nfsd.Nfs.Locks.Names.{
  nfsproc3_lookup-Idle, nfsproc3_create-Idle, nfsproc3_mkdir-Idle, nfsproc3_symlink-Idle,
  nfsproc3_remove-Idle, nfsproc3_rmdir-Idle,
}
use go_nfsd.Nfs.Locks.Renames.{nfsproc3_rename-Idle}

module _ (W : World) (H : WorldLaws W) where
  list_entry-QuietVisit : QuietVisit W H (list_entry W)
  unfolding list_entry
  list_entry-QuietVisit entries p name inum off =
      Leaves-bind W H _ _ (Leaves-load W H p)
        λ i. Leaves-bind W H _ _ (Leaves-lift W H _) λ fh3. Leaves-pure W H _

  ls3-Owned :
      (dip start dircount maxcount : ℕ)
      → Goes (Owned W H) (Owned W H) (ls3 W dip start dircount maxcount)
  unfolding ls3
  ls3-Owned dip start dircount maxcount =
      via_owned W H _ _
        (apply-Owned W H (list_entry W) list_entry-QuietVisit dip start dircount maxcount [])
        λ r. Goes-pure _

  readdir3-Owned : (dip start count : ℕ) → Goes (Owned W H) (Owned W H) (readdir3 W dip start count)
  unfolding readdir3
  readdir3-Owned dip start count =
      via_owned W H _ _
        (on_inode-Owned W H dip _
          λ i atxn. first_two-inum i.inum _ (apply_ents-inum W i.inum i atxn start count refl))
        λ r. Goes-pure _

  get_dir-Owned : (fh3 : NfsFh3) → Goes (Rested W H) (Owned W H) (get_dir W fh3)
  unfolding get_dir
  get_dir-Owned fh3 = via_owned W H _ _ (begin_again-Owned W H) λ _.
      via_owned W H _ _ (get_inode_fh-Owned W H fh3) λ found.
        Ensures-if_nil found _ _ (Goes-pure _)
          λ p. via_owned W H _ _ (load-Owned W H p) λ ip. Goes-pure _

  nfsproc3_readdir-Idle :
      (args : ReaddirArgs) → Goes (Idle W H) (Idle W H) (nfsproc3_readdir W args)
  unfolding nfsproc3_readdir
  nfsproc3_readdir-Idle args = via_locked W H _ _ (on_start W H _ (get_dir-Owned args.dir)) λ r.
      Ensures-if_nil r.0 _ _ (refused W H _ _) λ p.
        via_locked W H _ _ (on_locked W H _ (readdir3-Owned p args.cookie args.count))
          λ l. replied W H _

  nfsproc3_readdirplus-Idle :
      (args : ReaddirplusArgs) → Goes (Idle W H) (Idle W H) (nfsproc3_readdirplus W args)
  unfolding nfsproc3_readdirplus
  nfsproc3_readdirplus-Idle args = via_locked W H _ _ (on_start W H _ (get_dir-Owned args.dir)) λ r.
      Ensures-if_nil r.0 _ _ (refused W H _ _) λ p.
        via_locked W H _ _ (on_locked W H _ (ls3-Owned p args.cookie args.dircount args.maxcount))
          λ l. replied W H _

  nfsproc3_fsinfo-Idle : Goes (Idle W H) (Idle W H) (nfsproc3_fsinfo W)
  unfolding nfsproc3_fsinfo
  nfsproc3_fsinfo-Idle = via_locked W H _ _ (begins W H) λ _. replied W H _

  nfsproc3_pathconf-Idle : Goes (Idle W H) (Idle W H) (nfsproc3_pathconf W)
  unfolding nfsproc3_pathconf
  nfsproc3_pathconf-Idle = Goes-pure _

  nfsproc3_access-Idle : Goes (Idle W H) (Idle W H) (nfsproc3_access W)
  unfolding nfsproc3_access
  nfsproc3_access-Idle = Goes-pure _

  not_supported-Idle : Goes (Idle W H) (Idle W H) (not_supported W)
  unfolding not_supported
  not_supported-Idle = Goes-pure _

  pub handle-Idle :
      (rounds : ℕ) (now : Nfstime3) (q : Request)
      → Goes (Idle W H) (Idle W H) (handle W rounds now q)
  unfolding handle
  handle-Idle rounds now null = Goes-pure _
  handle-Idle rounds now (getattr a) =
      via_free W H _ _ (nfsproc3_getattr-Idle W H a) λ r. Goes-pure _
  handle-Idle rounds now (setattr a) =
      via_free W H _ _ (nfsproc3_setattr-Idle W H rounds now a) λ r. Goes-pure _
  handle-Idle rounds now (lookup a) =
      via_free W H _ _ (nfsproc3_lookup-Idle W H rounds a) λ r. Goes-pure _
  handle-Idle rounds now (access a) = via_free W H _ _ nfsproc3_access-Idle λ r. Goes-pure _
  handle-Idle rounds now (readlink a) =
      via_free W H _ _ (nfsproc3_readlink-Idle W H a) λ r. Goes-pure _
  handle-Idle rounds now (read_file a) =
      via_free W H _ _ (nfsproc3_read-Idle W H a) λ r. Goes-pure _
  handle-Idle rounds now (write_file a) =
      via_free W H _ _ (nfsproc3_write-Idle W H rounds a) λ r. Goes-pure _
  handle-Idle rounds now (create a) =
      via_free W H _ _ (nfsproc3_create-Idle W H rounds now a) λ r. Goes-pure _
  handle-Idle rounds now (mkdir a) =
      via_free W H _ _ (nfsproc3_mkdir-Idle W H rounds now a) λ r. Goes-pure _
  handle-Idle rounds now (symlink a) =
      via_free W H _ _ (nfsproc3_symlink-Idle W H rounds now a) λ r. Goes-pure _
  handle-Idle rounds now (mknod a) = via_free W H _ _ not_supported-Idle λ r. Goes-pure _
  handle-Idle rounds now (remove a) =
      via_free W H _ _ (nfsproc3_remove-Idle W H rounds a) λ r. Goes-pure _
  handle-Idle rounds now (rmdir a) =
      via_free W H _ _ (nfsproc3_rmdir-Idle W H rounds a) λ r. Goes-pure _
  handle-Idle rounds now (rename a) =
      via_free W H _ _ (nfsproc3_rename-Idle W H rounds a) λ r. Goes-pure _
  handle-Idle rounds now (link a) = via_free W H _ _ not_supported-Idle λ r. Goes-pure _
  handle-Idle rounds now (readdir a) = via_free W H _ _ (nfsproc3_readdir-Idle a) λ r. Goes-pure _
  handle-Idle rounds now (readdirplus a) =
      via_free W H _ _ (nfsproc3_readdirplus-Idle a) λ r. Goes-pure _
  handle-Idle rounds now (fsstat a) = via_free W H _ _ not_supported-Idle λ r. Goes-pure _
  handle-Idle rounds now (fsinfo a) = via_free W H _ _ nfsproc3_fsinfo-Idle λ r. Goes-pure _
  handle-Idle rounds now (pathconf a) = via_free W H _ _ nfsproc3_pathconf-Idle λ r. Goes-pure _
  handle-Idle rounds now (commit_file a) =
      via_free W H _ _ (nfsproc3_commit-Idle W H a) λ r. Goes-pure _

  pub serve_requests-Idle :
      (rounds : ℕ) (qs : List (Nfstime3 × Request))
      → Goes (Idle W H) (Idle W H) (serve_requests W rounds qs)
  unfolding serve_requests
  serve_requests-Idle rounds [] = Goes-pure []
  serve_requests-Idle rounds ((now, q) ∷ qs) =
      via_free W H _ _ (handle-Idle rounds now q)
        λ r. via_free W H _ _ (serve_requests-Idle rounds qs) λ rest. Goes-pure _
