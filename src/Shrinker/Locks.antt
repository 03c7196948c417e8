-- ===== src/Shrinker/Locks.antt =====
-- shrinker/shrinker.go: DoShrink gives back the locks that it takes.
use go_nfsd.Prelude.{ℕ, zero, suc, refl, Bool}
use go_nfsd.External.World.{World, WorldLaws}
use go_nfsd.Programs.Keeps.{Goes, Goes-pure, Goes-out_of_rounds, Ensures-if}
use go_nfsd.Inode.Inums.{shrink-inum}
use go_nfsd.Fstxn.Owned.{Rested}
use go_nfsd.Fstxn.Locks.{
  begin_again-Owned, get_inode_inum_free-Owned, on_inode-Owned, commit-Rested, via_owned,
  via_rested,
}
use go_nfsd.Shrinker.{shrink_txn, do_shrink}

module _ (W : World) (H : WorldLaws W) where
  shrink_txn-Rested : (inum : ℕ) → Goes (Rested W H) (Rested W H) (shrink_txn W inum)
  unfolding shrink_txn
  shrink_txn-Rested inum = via_owned W H _ _ (begin_again-Owned W H) λ _.
      via_owned W H _ _ (get_inode_inum_free-Owned W H inum) λ ip.
        via_owned W H _ _ (on_inode-Owned W H ip _ λ i atxn. shrink-inum W i.inum i atxn refl)
          λ more. via_rested W H _ _ (commit-Rested W H) λ done. Goes-pure (more, done)

  pub do_shrink-Rested :
      (rounds : ℕ) (crashed : Bool) (inum : ℕ)
      → Goes (Rested W H) (Rested W H) (do_shrink W rounds crashed inum)
  unfolding do_shrink
  do_shrink-Rested zero crashed inum = Goes-out_of_rounds
  do_shrink-Rested (suc rounds) crashed inum =
      via_rested W H _ _ (shrink_txn-Rested inum)
        λ r. Ensures-if _ _ _ (Goes-pure r.1) (do_shrink-Rested rounds crashed inum)
