-- ===== src/Nfs/Locks/Names.antt =====
-- nfs/nfs_ops.go: LOOKUP and the procedures that make and remove names give back their locks.
use go_nfsd.Prelude.{
  ℕ, zero, suc, ◌≡◌, refl, Bool, true, false, not, ◌==◌, length, [], Outcome, ok, panic, Gives,
  Gives-ok, Gives-panic,
}
use go_nfsd.External.World.{World, WorldLaws}
use go_nfsd.Programs.Keeps.{
  Ensures-if, Ensures-if_nil, Ensures-crash, Goes, Goes-pure, Goes-lift, Goes-out_of_rounds,
}
use go_nfsd.Nfstypes.{Bytes, NfsFh3, Nfstime3, Diropargs3, nf3dir, nf3lnk, nf3reg}
use go_nfsd.Nfstypes.Replies.{LookupArgs}
use go_nfsd.Nfstypes.Procs.{CreateArgs, MkdirArgs, SymlinkArgs, RemoveArgs, exclusive}
use go_nfsd.Alloctxn.{AllocTxn}
use go_nfsd.Inode.Layout.{Inode, free_inode}
use go_nfsd.Inode.Sizes.{is_shrinking}
use go_nfsd.Inode.Inums.{dec_link-inum, resize-inum, free_inode-inum, write-inum}
use go_nfsd.Fstxn.Quiet.{KeepsInum}
use go_nfsd.Fstxn.Owned.{Owned}
use go_nfsd.Fstxn.Locks.{load-Owned, on_inode-Owned, alloc_inode-Owned, via_owned}
use go_nfsd.Dir.Entries.{illegal_name}
use go_nfsd.Dir.Locks.{
  first_two-inum, lookup_name-Owned, add_name-Owned, rem_name-Owned, init_dir-Owned,
  is_dir_empty-Owned,
}
use go_nfsd.Nfs.Locking.{Inodes}
use go_nfsd.Nfs.Session.{is_ok, err_ret_at, commit_reply_at}
use go_nfsd.Nfs.Creating.{
  nfsproc3_lookup, get_alloc, do_dec_link, fill_new, add_new, do_create, create_reply,
  nfsproc3_create, nfsproc3_mkdir, nfsproc3_symlink,
}
use go_nfsd.Nfs.Removing.{refuses_dir, do_remove, remove_reply, nfsproc3_remove, nfsproc3_rmdir}
use go_nfsd.Nfs.Locks.{
  Active, Idle, on_locked, on_start, via_locked, via_free, begins, err_ret-Idle, commit_reply-Idle,
  start_shrinker-Active, shrink_first-Idle, deref-Active, from_free,
}
use go_nfsd.Nfs.Locks.Files.{found-Active, load-Active, refused, replied, change_inode-Owned}
use go_nfsd.Nfs.Locks.Orders.{inode_at-Owned, get_inodes_locked-Owned}

module _ (W : World) (H : WorldLaws W) where
  pub nfsproc3_lookup-Idle :
      (rounds : ℕ) (args : LookupArgs) → Goes (Idle W H) (Idle W H) (nfsproc3_lookup W rounds args)
  unfolding nfsproc3_lookup
  nfsproc3_lookup-Idle rounds args =
      via_locked W H _ _
        (on_start W H _ (get_inodes_locked-Owned W H rounds args.what.dir args.what.name))
        λ r. Ensures-if (not (is_ok r.1)) _ _ (refused W H _ _) (
          via_locked W H _ _ (on_locked W H _ (inode_at-Owned W H r.0 0)) λ p.
            via_locked W H _ _ (load-Active W H p)
              λ i. via_locked W H _ _ (Goes-lift _) λ fh3. replied W H _)

  get_alloc-Active :
      (n rounds : ℕ) (now : Nfstime3) (dfh : NfsFh3) (name : Bytes) (kind : ℕ)
      → Goes (Active W H) (Active W H) (get_alloc W n rounds now dfh name kind)
  unfolding get_alloc
  get_alloc-Active zero rounds now dfh name kind = Goes-out_of_rounds
  get_alloc-Active (suc n) rounds now dfh name kind =
      via_locked W H _ _ (found-Active W H dfh) λ found.
        Ensures-if_nil found _ _ (Goes-pure _) λ dip.
          via_locked W H _ _ (on_locked W H _ (lookup_name-Owned W H dip name)) λ r.
            Ensures-if (not (r.0 == W.nullinum)) _ _ (Goes-pure _) (
              via_locked W H _ _ (on_locked W H _ (alloc_inode-Owned W H kind now)) λ got.
                Ensures-if_nil got _ _ (Goes-pure _) λ ip.
                  via_locked W H _ _ (load-Active W H ip) λ i.
                    Ensures-if (not (is_shrinking W i)) _ _ (Goes-pure _) (
                      via_free W H _ _ (shrink_first-Idle W H rounds i.inum) λ done.
                        Ensures-if (not done) _ _ (from_free W H _ (Goes-pure _))
                          (from_free W H _ (get_alloc-Active n rounds now dfh name kind))))

  free_inode-KeepsInum :
      KeepsInum W
        (λ i atxn. elim (free_inode W i atxn) [ ok (i, atxn) ↦ ok (tt, i, atxn) | panic ↦ panic ])
  free_inode-KeepsInum i atxn = freed (free_inode W i atxn) (free_inode-inum W i.inum i atxn refl)
    where
      freed :
          (m : Outcome (Inode × AllocTxn W))
          → Gives {A = Inode × AllocTxn W} (λ r. r.0.inum ≡ i.inum) m
          → Gives {A = Unit {0} × Inode × AllocTxn W}
              (λ r. r.1.inum ≡ i.inum)
              (elim m [ ok (i, atxn) ↦ ok (tt, i, atxn) | panic ↦ panic ])
      freed (ok r) g = Gives-ok _ g.at
      freed panic g = Gives-panic

  pub do_dec_link-Active : (ip : ℕ) → Goes (Active W H) (Active W H) (do_dec_link W ip)
  unfolding do_dec_link
  do_dec_link-Active ip =
      via_locked W H _ _
        (on_locked W H _ (on_inode-Owned W H ip _ λ i atxn. dec_link-inum W i.inum i atxn refl))
        λ last.
          Ensures-if last _ _
            (via_locked W H _ _
              (on_locked W H _
                (on_inode-Owned W H ip _ λ i atxn. resize-inum W i.inum i atxn 0 refl))
              λ shrink.
                via_locked W H _ _ (on_locked W H _ (on_inode-Owned W H ip _ free_inode-KeepsInum))
                  λ _.
                    via_locked W H _ _ (load-Active W H ip)
                      λ i. Ensures-if shrink _ _ (start_shrinker-Active W H i.inum) (Goes-pure tt))
            (Goes-pure tt)

  fill_new-Owned :
      (dip ip kind : ℕ) (bytes : Bytes)
      → Goes (Owned W H) (Owned W H) (fill_new W dip ip kind bytes)
  unfolding fill_new
  fill_new-Owned dip ip kind bytes =
      Ensures-if (kind == nf3dir) _ _
        (via_owned W H _ _ (load-Owned W H dip) λ d.
          via_owned W H _ _ (init_dir-Owned W H ip d.inum) λ done.
            Ensures-if (not done) _ _ (Goes-pure _)
              (via_owned W H _ _ (change_inode-Owned W H dip _ λ i. refl) λ _. Goes-pure _))
        (Ensures-if (kind == nf3lnk) _ _
          (via_owned W H _ _
            (on_inode-Owned W H ip _ λ i atxn.
              first_two-inum i.inum _ (write-inum W i.inum i atxn 0 (length bytes) bytes refl))
            λ r. Goes-pure _)
          (Goes-pure _))

  add_new-Active :
      (dip ip : ℕ) (name : Bytes) (kind : ℕ) (bytes : Bytes)
      → Goes (Active W H) (Active W H) (add_new W dip ip name kind bytes)
  unfolding add_new
  add_new-Active dip ip name kind bytes =
      via_locked W H _ _ (on_locked W H _ (fill_new-Owned dip ip kind bytes)) λ filled.
        Ensures-if (not filled) _ _ (via_locked W H _ _ (do_dec_link-Active ip) λ _. Goes-pure _) (
          via_locked W H _ _ (load-Active W H ip) λ new.
            via_locked W H _ _ (on_locked W H _ (add_name-Owned W H dip new.inum name)) λ added.
              Ensures-if (not added) _ _
                (via_locked W H _ _ (do_dec_link-Active ip) λ _. Goes-pure _)
                (via_locked W H _ _ (load-Active W H ip)
                  λ i. via_locked W H _ _ (Goes-lift _) λ fh3. Goes-pure _))

  do_create-Active :
      (rounds : ℕ) (now : Nfstime3) (dfh : NfsFh3) (name : Bytes) (kind : ℕ) (bytes : Bytes)
      → Goes (Idle W H) (Active W H) (do_create W rounds now dfh name kind bytes)
  unfolding do_create
  do_create-Active rounds now dfh name kind bytes = via_locked W H _ _ (begins W H) λ _.
      via_locked W H _ _ (get_alloc-Active rounds rounds now dfh name kind) λ r.
        Ensures-if (not (is_ok r.2)) _ _ (Goes-pure _) (
          Ensures-if_nil r.1 _ _ (Goes-pure _) λ ip.
            via_locked W H _ _ (deref-Active W H r.0) λ dip. add_new-Active dip ip name kind bytes)

  create_reply-Idle :
      (rounds : ℕ) (now : Nfstime3) (location : Diropargs3) (kind : ℕ) (bytes : Bytes)
      → Goes (Idle W H) (Idle W H) (create_reply W rounds now location kind bytes)
  unfolding create_reply
  create_reply-Idle rounds now location kind bytes =
      via_locked W H _ _ (do_create-Active rounds now location.dir location.name kind bytes)
        λ r. Ensures-if (not (is_ok r.0)) _ _ (refused W H _ _) (replied W H _)

  pub nfsproc3_create-Idle :
      (rounds : ℕ) (now : Nfstime3) (args : CreateArgs)
      → Goes (Idle W H) (Idle W H) (nfsproc3_create W rounds now args)
  unfolding nfsproc3_create
  nfsproc3_create-Idle rounds now args =
      Ensures-if (args.how.mode == exclusive) _ _ (Goes-pure _)
        (create_reply-Idle rounds now args.location nf3reg [])

  pub nfsproc3_mkdir-Idle :
      (rounds : ℕ) (now : Nfstime3) (args : MkdirArgs)
      → Goes (Idle W H) (Idle W H) (nfsproc3_mkdir W rounds now args)
  unfolding nfsproc3_mkdir
  nfsproc3_mkdir-Idle rounds now args = create_reply-Idle rounds now args.location nf3dir []

  pub nfsproc3_symlink-Idle :
      (rounds : ℕ) (now : Nfstime3) (args : SymlinkArgs)
      → Goes (Idle W H) (Idle W H) (nfsproc3_symlink W rounds now args)
  unfolding nfsproc3_symlink
  nfsproc3_symlink-Idle rounds now args =
      create_reply-Idle rounds now args.location nf3lnk args.symlink.symlink_data

  refuses_dir-Owned :
      (isdir : Bool) (inodes : Inodes) → Goes (Owned W H) (Owned W H) (refuses_dir W isdir inodes)
  unfolding refuses_dir
  refuses_dir-Owned isdir inodes = Ensures-if (not isdir) _ _ (Goes-pure _) (
      via_owned W H _ _ (inode_at-Owned W H inodes 0) λ p. via_owned W H _ _ (load-Owned W H p) λ i.
        Ensures-if (not (i.kind == nf3dir)) _ _ (Goes-pure _)
          (via_owned W H _ _ (is_dir_empty-Owned W H p) λ empty. Goes-pure _))

  do_remove-Active :
      (rounds : ℕ) (dfh : NfsFh3) (name : Bytes) (isdir : Bool)
      → Goes (Idle W H) (Active W H) (do_remove W rounds dfh name isdir)
  unfolding do_remove
  do_remove-Active rounds dfh name isdir =
      Ensures-if (illegal_name name) _ _ (from_free W H _ (Goes-pure _)) (
        via_locked W H _ _ (on_start W H _ (get_inodes_locked-Owned W H rounds dfh name)) λ r.
          Ensures-if (not (is_ok r.1)) _ _ (Goes-pure _) (
            via_locked W H _ _ (on_locked W H _ (refuses_dir-Owned isdir r.0)) λ refuses.
              Ensures-if refuses _ _ (Goes-pure _) (
                via_locked W H _ _ (on_locked W H _ (inode_at-Owned W H r.0 1)) λ dip.
                  via_locked W H _ _ (on_locked W H _ (rem_name-Owned W H dip name)) λ done.
                    Ensures-if (not done) _ _ (Goes-pure _) (
                      via_locked W H _ _ (on_locked W H _ (inode_at-Owned W H r.0 0))
                        λ ip. via_locked W H _ _ (do_dec_link-Active ip) λ _. Goes-pure _))))

  remove_reply-Idle :
      (rounds : ℕ) (args : RemoveArgs) (isdir : Bool)
      → Goes (Idle W H) (Idle W H) (remove_reply W rounds args isdir)
  unfolding remove_reply commit_reply_at err_ret_at
  remove_reply-Idle rounds args isdir =
      via_locked W H _ _ (do_remove-Active rounds args.object.dir args.object.name isdir) λ r.
        via_free W H _ _
          (Ensures-if (is_ok r.1) _ _
            (Ensures-if_nil r.0 _ _ Ensures-crash λ _. commit_reply-Idle W H)
            (Ensures-if_nil r.0 _ _ Ensures-crash λ _. err_ret-Idle W H r.1))
          λ status. Goes-pure _

  pub nfsproc3_remove-Idle :
      (rounds : ℕ) (args : RemoveArgs) → Goes (Idle W H) (Idle W H) (nfsproc3_remove W rounds args)
  unfolding nfsproc3_remove
  nfsproc3_remove-Idle rounds args = remove_reply-Idle rounds args false

  pub nfsproc3_rmdir-Idle :
      (rounds : ℕ) (args : RemoveArgs) → Goes (Idle W H) (Idle W H) (nfsproc3_rmdir W rounds args)
  unfolding nfsproc3_rmdir
  nfsproc3_rmdir-Idle rounds args = remove_reply-Idle rounds args true
