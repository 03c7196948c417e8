-- ===== src/Nfs/Locks/Renames.antt =====
-- nfs/nfs_ops.go: RENAME gives back its locks.
use go_nfsd.Prelude.{ℕ, zero, suc, not, ◌&&◌, ◌==◌, Option, none, some}
use go_nfsd.External.World.{World, WorldLaws}
use go_nfsd.Programs.{pure, crash, out_of_rounds, ◌>>=◌, if_nil}
use go_nfsd.Programs.Keeps.{
  Ensures, Ensures-bind, Ensures-pure, Ensures-crash, Ensures-out_of_rounds, Ensures-pure_from,
  Ensures-if, Ensures-if_nil, Goes, Goes-pure, Goes-lift, Goes-out_of_rounds,
}
use go_nfsd.Nfstypes.{Bytes, Nfsstat3, nf3dir, nfs3_ok, nfs3err_stale}
use go_nfsd.Nfstypes.Procs.{RenameArgs}
use go_nfsd.Fh.{Fh, equal}
use go_nfsd.Fstxn.Owned.{Owned, Rested}
use go_nfsd.Fstxn.Locks.{
  via_owned, via_rested, begin_again-Owned, get_inode_fh-Owned, load-Owned, abort-Rested,
  commit-Rested,
}
use go_nfsd.Dir.Entries.{illegal_name}
use go_nfsd.Dir.Locks.{lookup_name-Owned, add_name-Owned, rem_name-Owned, is_dir_empty-Owned}
use go_nfsd.Nfs.Lorder.{two_inums}
use go_nfsd.Nfs.Locking.{Inodes, inode_at}
use go_nfsd.Nfs.Session.{Session}
use go_nfsd.Nfs.Renaming.{
  Round, replies, retries, moves, four_inodes, validate_rename, fails, rename_dirs, lock_target,
  replace_target, rename_over, rename_names, rename_round, rename_loop, move_name, nfsproc3_rename,
}
use go_nfsd.Nfs.Locks.{
  Active, Idle, on_locked, on_end, via_locked, begins, err_ret-Idle, commit_reply-Idle,
}
use go_nfsd.Nfs.Locks.Files.{load-Active}
use go_nfsd.Nfs.Locks.Names.{do_dec_link-Active}
use go_nfsd.Nfs.Locks.Orders.{Unless, inode_at-Owned, lock_inodes-Unless}

module _ (W : World) (H : WorldLaws W) where
  -- A round that replies or begins again holds no lock.
  abbrev pub AfterRound : Round → Session W → Type 0
  AfterRound (replies st) s = Rested W H s.op
  AfterRound retries s = Rested W H s.op
  AfterRound (moves d e n) s = Owned W H s.op

  fails-Round : (err : Nfsstat3) → Ensures (Active W H) (λ r. AfterRound r) (fails W err)
  unfolding fails
  fails-Round err =
      Ensures-bind (λ _. Idle W H) _ _ (err_ret-Idle W H err) λ st. Ensures-pure (replies st)

  four_inodes-Owned : (inodes : Inodes) → Goes (Owned W H) (Owned W H) (four_inodes W inodes)
  unfolding four_inodes
  four_inodes-Owned inodes = via_owned W H _ _ (inode_at-Owned W H inodes _) λ a.
      via_owned W H _ _ (inode_at-Owned W H inodes _) λ b.
        via_owned W H _ _ (inode_at-Owned W H inodes _)
          λ c. via_owned W H _ _ (inode_at-Owned W H inodes _) λ d. Goes-pure _

  validate_rename-Owned :
      (inodes : Inodes) (fromfh tofh : Fh) (fromn ton : Bytes)
      → Goes (Owned W H) (Owned W H) (validate_rename W inodes fromfh tofh fromn ton)
  unfolding validate_rename
  validate_rename-Owned inodes fromfh tofh fromn ton =
      via_owned W H _ _ (four_inodes-Owned inodes) λ q. via_owned W H _ _ (load-Owned W H q.0) λ d.
        via_owned W H _ _ (load-Owned W H q.1) λ e. Ensures-if _ _ _ (Goes-pure _) (
          via_owned W H _ _ (lookup_name-Owned W H q.0 fromn) λ m.
            via_owned W H _ _ (lookup_name-Owned W H q.1 ton) λ n.
              via_owned W H _ _ (load-Owned W H q.2)
                λ i. via_owned W H _ _ (load-Owned W H q.3) λ j. Goes-pure _)

  pub rename_dirs-Owned :
      (args : RenameArgs) (fromh toh : Fh)
      → Goes (Owned W H) (Owned W H) (rename_dirs W args fromh toh)
  unfolding rename_dirs
  rename_dirs-Owned args fromh toh =
      Ensures-if (equal W args.source.dir args.target.dir) _ _
        (via_owned W H _ _ (get_inode_fh-Owned W H args.source.dir) λ found. Goes-pure _)
        (Ensures-bind (λ got. Unless W H got) _ _
          (lock_inodes-Unless W H (two_inums fromh.ino toh.ino)) λ got. both got)
    where
      both :
          (got : Option Inodes)
          → Goes {A = Option (ℕ × ℕ)} (Unless W H got) (Owned W H) (
              if_nil got (pure none) λ inodes.
                inode_at W inodes 0 >>= λ p. inode_at W inodes 1 >>= λ q. pure (some (p, q)))
      both none = Ensures-pure_from none λ op r. r.owned
      both (some inodes) =
          via_owned W H _ _ (inode_at-Owned W H inodes 0)
            λ p. via_owned W H _ _ (inode_at-Owned W H inodes 1) λ q. Goes-pure _

  lock_target-Owned :
      (dipfrom dipto frominum toinum : ℕ)
      → Goes (Owned W H) (Owned W H) (lock_target W dipfrom dipto frominum toinum)
  unfolding lock_target
  lock_target-Owned dipfrom dipto frominum toinum = via_owned W H _ _ (load-Owned W H dipfrom) λ d.
      via_owned W H _ _ (load-Owned W H dipto) λ e. via_rested W H _ _ (abort-Rested W H) λ _.
        via_owned W H _ _ (begin_again-Owned W H)
          λ _. Ensures-bind (λ got. Unless W H got) _ _ (lock_inodes-Unless W H _) λ got. locked got
    where
      locked :
          (got : Option Inodes)
          → Goes (Unless W H got) (Owned W H) (if_nil got crash λ inodes. pure inodes)
      locked none = Ensures-crash
      locked (some inodes) = Goes-pure inodes

  replace_target-Round :
      (args : RenameArgs) (frominum : ℕ) (inodes : Inodes)
      → Ensures (Active W H) (λ r. AfterRound r) (replace_target W args frominum inodes)
  unfolding replace_target
  replace_target-Round args frominum inodes =
      Ensures-bind (λ _. Active W H) _ _ (on_locked W H _ (four_inodes-Owned inodes))
        λ q.
          Ensures-bind (λ _. Active W H) _ _ (load-Active W H q.2)
            λ i.
              Ensures-bind (λ _. Active W H) _ _ (load-Active W H q.3)
                λ j. Ensures-if (not (j.kind == i.kind)) _ _ (fails-Round _) (
                  Ensures-bind (λ _. Active W H) _ _
                    (on_locked W H _ (
                      Ensures-if (j.kind == nf3dir) _ _ (is_dir_empty-Owned W H q.3) (Goes-pure _)))
                    λ empty. Ensures-if (not empty) _ _ (fails-Round _) (
                      Ensures-bind (λ _. Active W H) _ _
                        (on_locked W H _ (rem_name-Owned W H q.1 args.target.name))
                        λ done. Ensures-if (not done) _ _ (fails-Round _) (
                          Ensures-bind (λ _. Active W H) _ _ (do_dec_link-Active W H q.3)
                            λ _. Ensures-pure (moves q.0 q.1 frominum))))

  rename_over-Round :
      (args : RenameArgs) (fromh toh : Fh) (dipfrom dipto frominum toinum : ℕ)
      → Ensures
          (Active W H)
          (λ r. AfterRound r)
          (rename_over W args fromh toh dipfrom dipto frominum toinum)
  unfolding rename_over
  rename_over-Round args fromh toh dipfrom dipto frominum toinum =
      Ensures-bind (λ _. Active W H) _ _
        (on_locked W H _ (lock_target-Owned dipfrom dipto frominum toinum))
        λ inodes.
          Ensures-bind (λ _. Active W H) _ _
            (on_locked W H _
              (validate_rename-Owned inodes fromh toh args.source.name args.target.name))
            λ valid.
              Ensures-if (not valid) _ _
                (Ensures-bind (λ _. Idle W H) _ _ (on_end W H _ (abort-Rested W H))
                  λ _. Ensures-pure retries)
                (replace_target-Round args frominum inodes)

  rename_names-Round :
      (args : RenameArgs) (fromh toh : Fh) (dipfrom dipto : ℕ)
      → Ensures (Active W H) (λ r. AfterRound r) (rename_names W args fromh toh dipfrom dipto)
  unfolding rename_names
  rename_names-Round args fromh toh dipfrom dipto =
      Ensures-bind (λ _. Active W H) _ _
        (on_locked W H _ (lookup_name-Owned W H dipfrom args.source.name))
        λ m. Ensures-if (m.0 == W.nullinum) _ _ (fails-Round _) (
          Ensures-bind (λ _. Active W H) _ _
            (on_locked W H _ (lookup_name-Owned W H dipto args.target.name))
            λ n.
              Ensures-if ((dipto == dipfrom) && (n.0 == m.0)) _ _
                (Ensures-bind (λ _. Idle W H) _ _ (on_end W H _ (commit-Rested W H))
                  λ _. Ensures-pure (replies nfs3_ok))
                (Ensures-if (not (n.0 == W.nullinum)) _ _
                  (rename_over-Round args fromh toh dipfrom dipto m.0 n.0)
                  (Ensures-pure (moves dipfrom dipto m.0))))

  rename_round-Round :
      (args : RenameArgs) → Ensures (Idle W H) (λ r. AfterRound r) (rename_round W args)
  unfolding rename_round
  rename_round-Round args =
      Ensures-bind (λ _. Active W H) _ _ (begins W H)
        λ _.
          Ensures-bind (λ _. Active W H) _ _ (Goes-lift _)
            λ toh.
              Ensures-bind (λ _. Active W H) _ _ (Goes-lift _)
                λ fromh. Ensures-if (illegal_name args.source.name) _ _ (fails-Round _) (
                  Ensures-bind (λ _. Active W H) _ _
                    (on_locked W H _ (rename_dirs-Owned args fromh toh))
                    λ dirs.
                      Ensures-if_nil dirs _ _ (fails-Round nfs3err_stale)
                        λ d. rename_names-Round args fromh toh d.0 d.1)

  rename_loop-Round :
      (rounds : ℕ) (args : RenameArgs)
      → Ensures (Idle W H) (λ r. AfterRound r) (rename_loop W rounds args)
  unfolding rename_loop
  rename_loop-Round zero args = Ensures-out_of_rounds
  rename_loop-Round (suc rounds) args =
      Ensures-bind (λ r. AfterRound r) _ _ (rename_round-Round args)
        λ r. next (rename_loop-Round rounds args) r
    where
      next :
          Ensures (Idle W H) (λ r. AfterRound r) (rename_loop W rounds args)
          → (r : Round)
          → Ensures
              (AfterRound r)
              (λ r. AfterRound r)
              (elim r [
                | replies st ↦ pure (replies st)
                | retries ↦ rename_loop W rounds args
                | moves d e n ↦ pure (moves d e n)
              ])
      next rest (replies st) = Ensures-pure (replies st)
      next rest retries = rest
      next rest (moves d e n) = Ensures-pure (moves d e n)

  move_name-Idle :
      (args : RenameArgs) (dipfrom dipto frominum : ℕ)
      → Goes (Active W H) (Idle W H) (move_name W args dipfrom dipto frominum)
  unfolding move_name
  move_name-Idle args dipfrom dipto frominum =
      via_locked W H _ _ (on_locked W H _ (rem_name-Owned W H dipfrom args.source.name)) λ gone.
        Ensures-if (not gone) _ _ (err_ret-Idle W H _) (
          via_locked W H _ _ (on_locked W H _ (add_name-Owned W H dipto frominum args.target.name))
            λ added. Ensures-if (not added) _ _ (err_ret-Idle W H _) (commit_reply-Idle W H))

  pub nfsproc3_rename-Idle :
      (rounds : ℕ) (args : RenameArgs) → Goes (Idle W H) (Idle W H) (nfsproc3_rename W rounds args)
  unfolding nfsproc3_rename
  nfsproc3_rename-Idle rounds args =
      Ensures-bind (λ r. AfterRound r) _ _ (rename_loop-Round rounds args)
        λ r. Ensures-bind (λ _. Idle W H) _ _ (ends r) λ st. Goes-pure _
    where
      ends :
          (r : Round)
          → Goes (AfterRound r) (Idle W H) (elim r [
            | replies st ↦ pure st
            | retries ↦ out_of_rounds
            | moves d e n ↦ move_name W args d e n
          ])
      ends (replies st) = Goes-pure st
      ends retries = Goes-out_of_rounds
      ends (moves d e n) = move_name-Idle args d e n
