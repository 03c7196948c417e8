-- ===== src/Nfs/Locks/Orders.antt =====
-- nfs/lorder.go: the locks that lockInodes and its callers take.
use go_nfsd.Prelude.{
  ℕ, zero, suc, not, ◌||◌, ◌==◌, ltb, if◌then◌else◌, Option, none, some, List, [], ◌∷◌, length,
  replicate, get_elem?, set,
}
use go_nfsd.External.World.{World, WorldLaws}
use go_nfsd.Programs.{pure, crash, ◌>>=◌, if_nil}
use go_nfsd.Programs.Keeps.{
  Ensures, Ensures-bind, Ensures-pure, Ensures-crash, Ensures-if, Ensures-if_nil, Goes, Goes-pure,
  Goes-lift, Goes-out_of_rounds, Goes-via,
}
use go_nfsd.Nfstypes.{Bytes, NfsFh3, nfs3_ok}
use go_nfsd.Fh.{Fh, make_fh}
use go_nfsd.Fstxn.State.{FsTxn}
use go_nfsd.Fstxn.Inodes.{load}
use go_nfsd.Fstxn.Commit.{abort}
use go_nfsd.Fstxn.Owned.{Owned, Rested}
use go_nfsd.Fstxn.Locks.{
  via_owned, via_rested, begin_again-Owned, get_inode_fh-Owned, get_inode_inum-Owned,
  get_inode_locked-Owned, load-Owned, abort-Rested,
}
use go_nfsd.Dir.Names.{lookup_name}
use go_nfsd.Dir.Locks.{lookup_name-Owned}
use go_nfsd.Nfs.Lorder.{two_inums, lock_order}
use go_nfsd.Nfs.Locking.{
  Inodes, position, inode_at, lock_loop, lock_inodes, lookup_ordered, get_inodes_locked,
}

module _ (W : World) (H : WorldLaws W) where
  -- No lock is held when nil is returned.
  abbrev pub Unless : Option Inodes → FsTxn W → Type 0
  Unless none op = Rested W H op
  Unless (some inodes) op = Owned W H op

  gives_up : Ensures (Owned W H) (λ got. Unless got) (abort W >>= λ _. pure none)
  gives_up = Ensures-bind (λ _. Rested W H) _ _ (abort-Rested W H) λ _. Ensures-pure none

  pub inode_at-Owned :
      (inodes : Inodes) (i : ℕ) → Goes (Owned W H) (Owned W H) (inode_at W inodes i)
  unfolding inode_at
  inode_at-Owned inodes i = at_index (get_elem? inodes i)
    where
      at_index :
          (o : Option (Option ℕ))
          → Goes {A = ℕ}
              (Owned W H)
              (Owned W H)
              (elim o [ none ↦ crash | some found ↦ if_nil found crash pure ])
      at_index none = Ensures-crash
      at_index (some none) = Ensures-crash
      at_index (some (some p)) = Goes-pure p

  lock_loop-Unless :
      (inums sorted : List ℕ) (inodes : Inodes)
      → Ensures (Owned W H) (λ got. Unless got) (lock_loop W inums sorted inodes)
  unfolding lock_loop
  lock_loop-Unless inums [] inodes = Ensures-pure (some inodes)
  lock_loop-Unless inums (inm ∷ sorted) inodes =
      Ensures-bind (λ _. Owned W H) _ _ (get_inode_inum-Owned W H inm)
        λ found.
          next found (position inums inm)
            λ pos ip. lock_loop-Unless inums sorted (set inodes pos (some ip))
    where
      next :
          (found : Option ℕ) (pos : Option ℕ)
          → ((pos ip : ℕ)
              → Ensures
                  (Owned W H)
                  (λ got. Unless got)
                  (lock_loop W inums sorted (set inodes pos (some ip))))
          → Ensures
              (Owned W H)
              (λ got. Unless got)
              (if_nil found (abort W >>= λ _. pure none) λ ip. elim pos [
                | none ↦ crash
                | some pos ↦ lock_loop W inums sorted (set inodes pos (some ip))
              ])
      next none pos rest = gives_up
      next (some ip) none rest = Ensures-crash
      next (some ip) (some pos) rest = rest pos ip

  pub lock_inodes-Unless :
      (inums : List ℕ) → Ensures (Owned W H) (λ got. Unless got) (lock_inodes W inums)
  unfolding lock_inodes
  lock_inodes-Unless inums =
      lock_loop-Unless inums (lock_order inums) (replicate (length inums) none)

  pub lookup_ordered-Unless :
      (name : Bytes) (parent : Fh) (inm : ℕ)
      → Ensures (Owned W H) (λ got. Unless got) (lookup_ordered W name parent inm)
  unfolding lookup_ordered
  lookup_ordered-Unless name parent inm =
      Ensures-bind (λ got. Unless got) _ _ (lock_inodes-Unless (two_inums inm parent.ino))
        λ got. next got
    where
      next :
          (got : Option Inodes)
          → Ensures
              (Unless got)
              (λ got. Unless got)
              (if_nil got (pure none) λ inodes. inode_at W inodes 1 >>= λ dip. load W dip >>= λ i.
                if not (i.gen == parent.gen)
                then (abort W >>= λ _. pure none)
                else lookup_name W dip name >>= λ r.
                    if r.0 == W.nullinum || not (r.0 == inm)
                    then (abort W >>= λ _. pure none)
                    else pure (some inodes))
      next none = Ensures-pure none
      next (some inodes) =
          Ensures-bind (λ _. Owned W H) _ _ (inode_at-Owned inodes 1)
            λ dip.
              Ensures-bind (λ _. Owned W H) _ _ (load-Owned W H dip)
                λ i. Ensures-if (not (i.gen == parent.gen)) _ _ gives_up (
                  Ensures-bind (λ _. Owned W H) _ _ (lookup_name-Owned W H dip name)
                    λ r.
                      Ensures-if (r.0 == W.nullinum || not (r.0 == inm)) _ _ gives_up
                        (Ensures-pure (some inodes)))

  pub get_inodes_locked-Owned :
      (rounds : ℕ) (dfh : NfsFh3) (name : Bytes)
      → Goes (Rested W H) (Owned W H) (get_inodes_locked W rounds dfh name)
  unfolding get_inodes_locked
  get_inodes_locked-Owned zero dfh name = Goes-out_of_rounds
  get_inodes_locked-Owned (suc rounds) dfh name = via_owned W H _ _ (begin_again-Owned W H) λ _.
      via_owned W H _ _ (get_inode_fh-Owned W H dfh) λ found.
        Ensures-if_nil found _ _ (Goes-pure _) λ dip.
          via_owned W H _ _ (lookup_name-Owned W H dip name) λ r.
            via_owned W H _ _ (load-Owned W H dip) λ i.
              Ensures-if (r.0 == W.nullinum) _ _ (Goes-pure _) (
                Ensures-if (r.0 == i.inum) _ _ (Goes-pure _) (
                  Ensures-if (ltb r.0 i.inum) _ _
                    (via_rested W H _ _ (abort-Rested W H) λ _.
                      Goes-via (Rested W H) _ _ (Goes-lift (make_fh W dfh)) λ parent.
                        via_owned W H _ _ (begin_again-Owned W H) λ _.
                          Ensures-bind (λ got. Unless got) _ _
                            (lookup_ordered-Unless name parent r.0)
                            λ got. again (get_inodes_locked-Owned rounds dfh name) got)
                    (via_owned W H _ _ (get_inode_locked-Owned W H r.0) λ ip. Goes-pure _)))
    where
      again :
          Goes (Rested W H) (Owned W H) (get_inodes_locked W rounds dfh name)
          → (got : Option Inodes)
          → Goes
              (Unless got)
              (Owned W H)
              (if_nil got (get_inodes_locked W rounds dfh name) λ inodes. pure (inodes, nfs3_ok))
      again rest none = rest
      again rest (some inodes) = Goes-pure _
