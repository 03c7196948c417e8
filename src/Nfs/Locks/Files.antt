-- ===== src/Nfs/Locks/Files.antt =====
-- nfs/nfs_ops.go: the procedures on one inode give back their locks.
use go_nfsd.Prelude.{
  ℕ, ◌≡◌, refl, not, ◌||◌, ◌==◌, leb, ltb, add64, Outcome-cases, inl, inr, Gives-ok, Gives-panic,
}
use go_nfsd.External.World.{World, WorldLaws}
use go_nfsd.Programs.{pure, ◌>>=◌}
use go_nfsd.Programs.Keeps.{Ensures-if, Ensures-if_nil, Goes, Goes-pure, Goes-gets}
use go_nfsd.Nfstypes.{
  nf3reg, NfsFh3, Nfsstat3, Nfstime3, SetTime, SetNum3, dont_change, StableHow, file_sync,
  data_sync,
}
use go_nfsd.Nfstypes.Replies.{GetattrArgs, SetattrArgs, ReadArgs, WriteArgs, CommitArgs}
use go_nfsd.Nfstypes.Procs.{ReadlinkArgs}
use go_nfsd.Inode.Layout.{Inode, write_inode}
use go_nfsd.Inode.Inums.{read-inum, write-inum, resize-inum}
use go_nfsd.Fstxn.Inodes.{load, get_inode_fh}
use go_nfsd.Fstxn.Owned.{Owned, Rested}
use go_nfsd.Fstxn.Quiet.{Quiet-Rested, Quiet-load}
use go_nfsd.Fstxn.Locks.{
  begin_again-Owned, get_inode_fh-Owned, load-Owned, on_inode-Owned, commit-Rested,
  commit_data-Rested, commit_unstable-Rested, commit_fh-Rested, via_owned,
}
use go_nfsd.Dir.Locks.{first_two-inum}
use go_nfsd.Nfs.Session.{on_op, err_ret, commit_reply, is_ok}
use go_nfsd.Nfs.Files.{
  nfsproc3_getattr, change_inode, set_time, set_size, nfsproc3_setattr, do_read, nfsproc3_read,
  nfsproc3_readlink, commit_as, refuse_write, write_to, nfsproc3_write, nfsproc3_commit,
}
use go_nfsd.Nfs.Locks.{
  Active, Idle, on_locked, on_end, on_start, via_locked, via_free, begins, err_ret-Idle,
  commit_reply-Idle, start_shrinker-Active, get_shrink-Active, deref-Active, on_free, from_free,
}

module _ (W : World) (H : WorldLaws W) where
  -- The start of a procedure: its transaction begins and finds the inode of a handle.
  pub found-Active : (fh3 : NfsFh3) → Goes (Active W H) (Active W H) (on_op W (get_inode_fh W fh3))
  found-Active fh3 = on_locked W H _ (get_inode_fh-Owned W H fh3)

  pub load-Active : (p : ℕ) → Goes (Active W H) (Active W H) (on_op W (load W p))
  load-Active p = on_locked W H _ (load-Owned W H p)

  -- A refusal or an end, and the reply made of its status.
  pub refused :
      {A : Type 0} (err : Nfsstat3) (f : Nfsstat3 → A)
      → Goes (Active W H) (Idle W H) (err_ret W err >>= λ st. pure (f st))
  refused err f = via_free W H _ _ (err_ret-Idle W H err) λ st. Goes-pure (f st)

  pub replied :
      {A : Type 0} (f : Nfsstat3 → A)
      → Goes (Active W H) (Idle W H) (commit_reply W >>= λ st. pure (f st))
  replied f = via_free W H _ _ (commit_reply-Idle W H) λ st. Goes-pure (f st)

  pub nfsproc3_getattr-Idle :
      (args : GetattrArgs) → Goes (Idle W H) (Idle W H) (nfsproc3_getattr W args)
  unfolding nfsproc3_getattr
  nfsproc3_getattr-Idle args = via_locked W H _ _ (begins W H) λ _.
      via_locked W H _ _ (found-Active args.object) λ found.
        Ensures-if_nil found _ _ (refused _ _)
          λ p. via_locked W H _ _ (load-Active p) λ ip. replied _

  pub change_inode-Owned :
      (p : ℕ) (f : Inode → Inode)
      → ((i : Inode) → (f i).inum ≡ i.inum)
      → Goes (Owned W H) (Owned W H) (change_inode W p f)
  unfolding change_inode
  change_inode-Owned p f same = on_inode-Owned W H p _ λ i atxn.
      elim (Outcome-cases (write_inode W (f i) atxn)) [
        | inl bad ↦ rw bad Gives-panic
        | inr (a, e) ↦ rw e (Gives-ok _ (same i))
      ]

  set_time-Owned :
      (p : ℕ) (how : SetTime) (now : Nfstime3) (f : Nfstime3 → Inode → Inode)
      → ((t : Nfstime3) (i : Inode) → (f t i).inum ≡ i.inum)
      → Goes (Owned W H) (Owned W H) (set_time W p how now f)
  unfolding set_time
  set_time-Owned p how now f same =
      Ensures-if (not (how.set_it == dont_change)) _ _ (change_inode-Owned p _ (same _))
        (Goes-pure tt)

  set_size-Active : (p : ℕ) (how : SetNum3) → Goes (Active W H) (Active W H) (set_size W p how)
  unfolding set_size
  set_size-Active p how =
      Ensures-if how.set_it _ _
        (via_locked W H _ _
          (on_locked W H _
            (on_inode-Owned W H p _ λ i atxn. resize-inum W i.inum i atxn how.value refl))
          λ shrink.
            via_locked W H _ _ (load-Active p)
              λ ip. Ensures-if shrink _ _ (start_shrinker-Active W H ip.inum) (Goes-pure tt))
        (Goes-pure tt)

  pub nfsproc3_setattr-Idle :
      (rounds : ℕ) (now : Nfstime3) (args : SetattrArgs)
      → Goes (Idle W H) (Idle W H) (nfsproc3_setattr W rounds now args)
  unfolding nfsproc3_setattr
  nfsproc3_setattr-Idle rounds now args =
      via_locked W H _ _ (get_shrink-Active W H rounds args.object) λ r.
        Ensures-if (not (is_ok r.1)) _ _ (refused _ _) (
          via_locked W H _ _ (deref-Active W H r.0) λ p.
            via_locked W H _ _ (set_size-Active p args.new_attributes.size) λ _.
              via_locked W H _ _
                (on_locked W H _ (set_time-Owned p args.new_attributes.atime now _ λ t i. refl))
                λ _.
                  via_locked W H _ _
                    (on_locked W H _ (set_time-Owned p args.new_attributes.mtime now _ λ t i. refl))
                    λ _. via_locked W H _ _ (load-Active p) λ ip. replied _)

  do_read-Owned :
      (fh : NfsFh3) (kind offset count : ℕ)
      → Goes (Rested W H) (Owned W H) (do_read W fh kind offset count)
  unfolding do_read
  do_read-Owned fh kind offset count = via_owned W H _ _ (begin_again-Owned W H) λ _.
      via_owned W H _ _ (get_inode_fh-Owned W H fh) λ found.
        Ensures-if_nil found _ _ (Goes-pure _) λ p. via_owned W H _ _ (load-Owned W H p) λ ip.
          Ensures-if (not (ip.kind == kind)) _ _ (Goes-pure _) (
            via_owned W H _ _
              (on_inode-Owned W H p _
                λ i atxn. first_two-inum i.inum _ (read-inum W i.inum i atxn offset _ refl))
              λ r. Goes-pure _)

  pub nfsproc3_read-Idle : (args : ReadArgs) → Goes (Idle W H) (Idle W H) (nfsproc3_read W args)
  unfolding nfsproc3_read
  nfsproc3_read-Idle args =
      via_locked W H _ _ (on_start W H _ (do_read-Owned args.file _ args.offset args.count))
        λ r. Ensures-if (not (is_ok r.2)) _ _ (refused _ _) (replied _)

  pub nfsproc3_readlink-Idle :
      (args : ReadlinkArgs) → Goes (Idle W H) (Idle W H) (nfsproc3_readlink W args)
  unfolding nfsproc3_readlink
  nfsproc3_readlink-Idle args =
      via_locked W H _ _ (on_start W H _ (do_read-Owned args.symlink _ 0 0))
        λ r. Ensures-if (not (is_ok r.2)) _ _ (refused _ _) (replied _)

  commit_as-Rested : (how : StableHow) → Goes (Owned W H) (Rested W H) (commit_as W how)
  unfolding commit_as
  commit_as-Rested how =
      Ensures-if (how == file_sync) _ _ (commit-Rested W H)
        (Ensures-if (how == data_sync) _ _ (commit_data-Rested W H) (commit_unstable-Rested W H))

  refuse_write-Idle : (err : Nfsstat3) → Goes (Active W H) (Idle W H) (refuse_write W err)
  unfolding refuse_write
  refuse_write-Idle err = refused err _

  load-Idle : (p : ℕ) → Goes (Idle W H) (Idle W H) (on_op W (load W p))
  load-Idle p = on_free W H _ (Quiet-Rested W H _ (Quiet-load W H p))

  write_to-Idle : (p : ℕ) (args : WriteArgs) → Goes (Active W H) (Idle W H) (write_to W p args)
  unfolding write_to
  write_to-Idle p args = via_locked W H _ _ (load-Active p) λ ip.
      Ensures-if (not (ip.kind == nf3reg) || leb W.log_bytes args.count) _ _ (refuse_write-Idle _) (
        via_locked W H _ _
          (on_locked W H _ (
            on_inode-Owned W H p _ λ i atxn.
              first_two-inum i.inum _
                (write-inum W i.inum i atxn args.offset args.count args.bytes refl)))
          λ r. Ensures-if (not r.1) _ _ (refuse_write-Idle _) (
            via_locked W H _ _ (Goes-gets _) λ u.
              via_free W H _ _ (on_end W H _ (commit_as-Rested _))
                λ done. via_free W H _ _ (load-Idle p) λ ip'. Goes-pure _))

  pub nfsproc3_write-Idle :
      (rounds : ℕ) (args : WriteArgs) → Goes (Idle W H) (Idle W H) (nfsproc3_write W rounds args)
  unfolding nfsproc3_write
  nfsproc3_write-Idle rounds args = via_locked W H _ _ (get_shrink-Active W H rounds args.file) λ r.
      Ensures-if (not (is_ok r.1)) _ _ (refuse_write-Idle r.1)
        (via_locked W H _ _ (deref-Active W H r.0) λ p. write_to-Idle p args)

  pub nfsproc3_commit-Idle :
      (args : CommitArgs) → Goes (Idle W H) (Idle W H) (nfsproc3_commit W args)
  unfolding nfsproc3_commit
  nfsproc3_commit-Idle args = via_locked W H _ _ (begins W H) λ _.
      via_locked W H _ _ (found-Active args.file) λ found.
        via_free W H _ _
          (Ensures-if_nil found _ _ (err_ret-Idle W H _) λ p.
            via_locked W H _ _ (load-Active p) λ ip.
              Ensures-if (not (ip.kind == nf3reg)) _ _ (err_ret-Idle W H _) (
                Ensures-if (ltb ip.size (add64 args.offset args.count)) _ _ (err_ret-Idle W H _) (
                  via_free W H _ _ (on_end W H _ (commit_fh-Rested W H)) λ done.
                    Ensures-if done _ _ (Goes-pure _) (from_free W H _ (err_ret-Idle W H _)))))
          λ status. Goes-pure _
