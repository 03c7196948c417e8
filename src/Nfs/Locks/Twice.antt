-- ===== src/Nfs/Locks/Twice.antt =====
-- nfs/lorder.go and nfs/nfs_ops.go: lockInodes of a number that occurs twice, and RENAME that asks
-- for it.
use go_nfsd.Prelude.{
  ℕ, suc, ◌≡◌, ◌≢◌, refl, sym, ap, ok, panic, false, ◌∙◌, subst, Bool-cases, inl, inr, ltb,
  if◌then◌else◌, [], ◌∷◌, none, some,
}
use go_nfsd.External.World.{World, WorldLaws}
use go_nfsd.Programs.{returns, waits, ◌>>=◌}
use go_nfsd.Programs.Keeps.{After}
use go_nfsd.Cache.Lists.{same_true}
use go_nfsd.Nfstypes.{NfsFh3}
use go_nfsd.Nfstypes.Procs.{RenameArgs}
use go_nfsd.Fh.{Fh, make_fh, equal}
use go_nfsd.Dir.Entries.{illegal_name}
use go_nfsd.Fstxn.State.{FsTxn, begin, begin_again}
use go_nfsd.Fstxn.Owned.{has_inode, Owned, start-Rested}
use go_nfsd.Fstxn.Inodes.{lock_inode, get_inode_locked, get_inode_inum_free, get_inode_inum}
use go_nfsd.Fstxn.Acquires.{Got}
use go_nfsd.Fstxn.Handles.{UnlessNil, Used, get_inode_inum-Used}
use go_nfsd.Nfs.Lorder.{two_inums, lock_order, lock_order_two}
use go_nfsd.Nfs.Session.{Session, on_op}
use go_nfsd.Nfs.Renaming.{rename_dirs, rename_round, rename_loop, nfsproc3_rename}
use go_nfsd.Nfs.Locks.{Idle}
use go_nfsd.Nfs.Locking.{Inodes, position, lock_loop, lock_inodes}

module _ (W : World) (H : WorldLaws W) where
  get_inode_inum-waits :
      (inum p : ℕ) (op : FsTxn W) → Got W H inum p op → get_inode_inum W inum op ≡ waits
  unfolding get_inode_inum get_inode_inum_free get_inode_locked lock_inode ◌>>=◌
  get_inode_inum-waits inum p op g = rw (g.mine, has_inode) refl

  position_first : (a b : ℕ) → position (a ∷ b ∷ []) a ≡ some 0
  unfolding position
  position_first a b = rw (same_true a) refl

  loop_waits :
      (op op' : FsTxn W) (a p : ℕ) (inodes : Inodes)
      → get_inode_inum W a op ≡ returns (some p, op')
      → get_inode_inum W a op' ≡ waits
      → lock_loop W (a ∷ a ∷ []) (a ∷ a ∷ []) inodes op ≡ waits
  unfolding lock_loop ◌>>=◌
  loop_waits op op' a p inodes e w = rw (e, position_first a a, w) refl

  -- lockInodes of two equal numbers waits for ever, in a transaction whose locks are in order and in
  -- which GetInodeInum of the number finds an inode: the second lock is the one that the transaction
  -- holds after the first.
  pub lock_inodes_twice :
      (op op' : FsTxn W) (a p : ℕ)
      → Owned W H op
      → get_inode_inum W a op ≡ returns (some p, op')
      → lock_inodes W (two_inums a a) op ≡ waits
  unfolding lock_inodes two_inums
  lock_inodes_twice op op' a p o e =
      let got =
        subst (λ r. After r (λ found. UnlessNil W H (Used W H a) found)) e
          ((get_inode_inum-Used W H a).at op o) in
      let order : lock_order (a ∷ a ∷ []) ≡ a ∷ a ∷ [] = lock_order_two a a ∙ sorted a in
      rw order (loop_waits op op' a p (none ∷ none ∷ []) e (get_inode_inum-waits a p op' got.got))
    where
      sorted : (a : ℕ) → (if ltb a a then a ∷ a ∷ [] else a ∷ a ∷ []) ≡ a ∷ a ∷ []
      sorted a = elim (Bool-cases (ltb a a)) [ inl e ↦ rw e refl | inr e ↦ rw e refl ]

  gen_same : (a b : Fh) → ok a ≡ ok b → a.gen ≡ b.gen
  gen_same a b e = ap (λ r. elim r [ ok x ↦ x.gen | panic ↦ 0 ]) e

  -- Handles of which the generations differ are not equal.
  differ :
      (h1 h2 : NfsFh3) (a b : Fh)
      → make_fh W h1 ≡ ok a
      → make_fh W h2 ≡ ok b
      → a.gen ≢ b.gen
      → equal W h1 h2 ≡ false
  unfolding equal
  differ h1 h2 a b ea eb ne = elim (Bool-cases (W.bytes_equal h1.bytes h2.bytes)) [
    | inr unequal ↦ unequal
    | inl same ↦
        let bytes = (H.bytes_equal_iff h1.bytes h2.bytes).0 same in
        let decoded : make_fh W h1 ≡ make_fh W h2 =
          ap (λ d. make_fh W (record { bytes = d })) bytes in
        let one : ok a ≡ ok b = sym ea ∙ decoded ∙ eb in absurd (ne (gen_same a b one))
  ]

  -- RENAME between two directory handles of one inode number and different generations waits for ever,
  -- on a server that holds no lock, if the name is neither "." nor ".." and GetInodeInum of the number
  -- finds an inode.
  pub nfsproc3_rename_twice :
      (rounds : ℕ) (args : RenameArgs) (s : Session W) (fromh toh : Fh) (p : ℕ) (op : FsTxn W)
      → Idle W H s
      → make_fh W args.source.dir ≡ ok fromh
      → make_fh W args.target.dir ≡ ok toh
      → fromh.ino ≡ toh.ino
      → fromh.gen ≢ toh.gen
      → illegal_name args.source.name ≡ false
      → get_inode_inum W toh.ino (begin W s.op.fs) ≡ returns (some p, op)
      → nfsproc3_rename W (suc rounds) args s ≡ waits
  unfolding nfsproc3_rename rename_loop rename_round rename_dirs on_op begin_again ◌>>=◌
  nfsproc3_rename_twice rounds args s fromh toh p op idle ef et same other legal found =
      let twice =
        lock_inodes_twice (begin W s.op.fs) op toh.ino p (start-Rested W H s.op idle).owned found in
      let unequal = differ args.source.dir args.target.dir fromh toh ef et other in
      rw (et, ef, legal, unequal, same, twice) refl
