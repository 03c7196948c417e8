-- ===== src/Nfs/Locking.antt =====
-- nfs/lorder.go and the locking of nfs/nfs_ops.go: which inodes a request locks, and in which order.
-- `[]*inode.Inode` is a list of pointers that may be nil.
use go_nfsd.Prelude.{
  ℕ, zero, suc, List, [], ◌∷◌, length, get_elem?, set, replicate, not, ltb, ◌||◌, ◌==◌,
  if◌then◌else◌, Option, none, some,
}
use go_nfsd.External.World.{World}
use go_nfsd.Programs.{◌>>=◌, ◌>>◌, pure, crash, out_of_rounds, lift, if_nil}
use go_nfsd.Nfstypes.{Bytes, Nfsstat3, nfs3_ok, nfs3err_stale, nfs3err_noent, NfsFh3}
use go_nfsd.Fh.{Fh, make_fh}
use go_nfsd.Fstxn.State.{FsProg, begin_again}
use go_nfsd.Fstxn.Inodes.{load, get_inode_inum, get_inode_fh, get_inode_locked}
use go_nfsd.Fstxn.Commit.{abort}
use go_nfsd.Dir.Names.{lookup_name}
use go_nfsd.Nfs.Lorder.{lock_order, two_inums}

abbrev pub Inodes : Type 0
Inodes = List (Option ℕ)

-- The first position of a number.
unfoldable pub position : List ℕ → ℕ → Option ℕ
position [] inm = none
position (v ∷ inums) inm =
    let rest = position inums inm in
    if v == inm then some 0 else elim rest [ none ↦ none | some i ↦ some (suc i) ]

unfoldable pub two_inodes : ℕ → ℕ → Inodes
two_inodes ino1 ino2 = some ino1 ∷ some ino2 ∷ []

module _ (W : World) where
  -- `inodes[i]`, dereferenced
  unfoldable pub inode_at : Inodes → ℕ → FsProg W ℕ
  inode_at inodes i = elim (get_elem? inodes i) [
    | none ↦ crash
    | some found ↦ if_nil found crash pure
  ]

  -- The loop of `lockInodes` over `sorted`; nil when an inode is free.
  unfoldable pub lock_loop : List ℕ → List ℕ → Inodes → FsProg W (Option Inodes)
  lock_loop inums [] inodes = pure (some inodes)
  lock_loop inums (inm ∷ sorted) inodes = do
    found ← get_inode_inum W inm
    if_nil found (do abort W; pure none)
        λ ip. elim (position inums inm) [
          | none ↦ crash
          | some pos ↦ lock_loop inums sorted (set inodes pos (some ip))
        ]

  unfoldable pub lock_inodes : List ℕ → FsProg W (Option Inodes)
  lock_inodes inums = lock_loop inums (lock_order inums) (replicate (length inums) none)

  unfoldable pub lookup_ordered : Bytes → Fh → ℕ → FsProg W (Option Inodes)
  lookup_ordered name parent inm = do
    got ← lock_inodes (two_inums inm parent.ino)
    if_nil got (pure none) λ inodes. (do
      dip ← inode_at inodes 1
      i ← load W dip
      if not (i.gen == parent.gen) then (do abort W; pure none) else (do
        (child, _) ← lookup_name W dip name
        if child == W.nullinum || not (child == inm)
            then (do abort W; pure none)
            else pure (some inodes)))

  -- The inode of a name and that of its directory; one inode when they are the same. A round that
  -- could not lock them in order begins again.
  unfoldable pub get_inodes_locked : ℕ → NfsFh3 → Bytes → FsProg W (Inodes × Nfsstat3)
  get_inodes_locked zero dfh name = out_of_rounds
  get_inodes_locked (suc rounds) dfh name = do
    begin_again W
    found ← get_inode_fh W dfh
    if_nil found (pure ([], nfs3err_stale)) λ dip. (do
      (inum, _) ← lookup_name W dip name
      i ← load W dip
      if inum == W.nullinum
          then pure (some dip ∷ [], nfs3err_noent)
          else if inum == i.inum
          then pure (some dip ∷ [], nfs3_ok)
          else if ltb inum i.inum
          then (do
            abort W
            parent ← lift (make_fh W dfh)
            begin_again W
            got ← lookup_ordered name parent inum
            if_nil got (get_inodes_locked rounds dfh name) λ inodes. pure (inodes, nfs3_ok))
          else (do ip ← get_inode_locked W inum; pure (two_inodes ip dip, nfs3_ok)))
