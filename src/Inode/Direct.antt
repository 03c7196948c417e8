-- ===== src/Inode/Direct.antt =====
-- inode/inode.go `bmap` on the direct blocks of a file.
use native.Mathlib.Decide.{ℕ_discrete}
use go_nfsd.Prelude.{
  ℕ, ◌<◌, ◌≡◌, ◌≢◌, refl, sym, ◌∙◌, Bool, true, false, not, ◌==◌, lt→ltb, some, List, length,
  length-set, get_elem?, get_elem?-some, get_elem?-set_self, get_elem?-set_ne, set, ok, index,
  store, arith,
}
use go_nfsd.External.World.{World, WorldLaws}
use go_nfsd.Super.{FsSuper}
use go_nfsd.Alloctxn.{AllocTxn}
use go_nfsd.Alloctxn.Calls.{InData, Runs, alloc_block_lem}
use go_nfsd.Inode.Layout.{Inode, ndirect, nblkino}
use go_nfsd.Inode.Blocks.{bmap}

pub index_at : (d : List ℕ) (i x : ℕ) → get_elem? d i ≡ some x → index d i ≡ ok x
unfolding index
index_at d i x h = rw (h, index)

pub store_at : (d : List ℕ) (i v : ℕ) → i < length d → store d i v ≡ ok (set d i v)
unfolding store
store_at d i v h = rw (lt→ltb i (length d) h) refl

module _ (W : World) (H : WorldLaws W) where
  -- A direct block that is there is found, and nothing changes.
  pub bmap_there :
      (ip : Inode) (atxn : AllocTxn W) (bn b : ℕ)
      → bn < ndirect
      → get_elem? ip.blks bn ≡ some b
      → b ≢ 0
      → bmap W ip atxn bn ≡ ok (b, false, ip, atxn)
  unfolding bmap
  bmap_there ip atxn bn b lt at some_blk =
      let test : (b == W.nullbnum) ≡ false = rw H.nullbnum_zero (ground arith) in
      rw (lt→ltb bn ndirect lt) (rw (index_at ip.blks bn b at) (rw test refl))

  -- `bmap` of a direct block in a transaction that tracks what it allocates, where all free blocks lie
  -- in the data region, ends without a panic. A block that is there is returned and nothing is
  -- allocated; the file's other blocks stay; and once a block is returned, a later `bmap` of the same
  -- number returns it again, in any transaction, without an allocation.
  pub bmap_direct :
      (super : FsSuper) (ib bb : ℕ → Bool) (ip : Inode) (atxn : AllocTxn W) (bn : ℕ)
      → ((n : ℕ) → n ≢ 0 → bb n ≡ false → InData W super n)
      → Runs W H super ib bb atxn
      → length ip.blks ≡ nblkino
      → bn < ndirect
      → (blkno : ℕ) × (alloc : Bool) × (ip' : Inode) × (atxn' : AllocTxn W) × (bmap W ip atxn bn
          ≡ ok (blkno, alloc, ip', atxn'))
        × Runs W H super ib bb atxn'
        × (length ip'.blks ≡ nblkino)
        × ((b : ℕ)
            → get_elem? ip.blks bn ≡ some b
            → b ≢ 0
            → (blkno ≡ b) × (alloc ≡ false) × (atxn' ≡ atxn))
        × ((i : ℕ) → i ≢ bn → get_elem? ip'.blks i ≡ get_elem? ip.blks i)
        × (blkno ≢ 0 → (atxn2 : AllocTxn W) → bmap W ip' atxn2 bn ≡ ok (blkno, false, ip', atxn2))
  unfolding bmap
  bmap_direct super ib bb ip atxn bn room r ten lt =
      let (b, at) = get_elem?-some ip.blks bn (omega arith) in
      elim (ℕ_discrete b 0) [
        | no some_blk ↦ (
          b,
          false,
          ip,
          atxn,
          bmap_there ip atxn bn b lt at some_blk,
          r,
          ten,
          λ b' at' ne. (same_some (sym at ∙ at'), refl, refl),
          λ i ne. refl,
          λ ne atxn2. bmap_there ip atxn2 bn b lt at some_blk,
        )
        | yes none ↦
            let (atxn1, run, r1) = alloc_block_lem W H super ib bb room atxn r in
            let blkno = (W.alloc_num atxn.balloc).0 in
            let test : (b == W.nullbnum) ≡ true = rw (none, H.nullbnum_zero) refl in
            let inside : bn < length ip.blks = omega arith in
            (
              blkno,
              not (blkno == W.nullbnum),
              record ip { blks = set ip.blks bn blkno },
              atxn1,
              rw (lt→ltb bn ndirect lt) (
                  rw (index_at ip.blks bn b at)
                    (rw test (rw run (rw (store_at ip.blks bn blkno inside) refl)))),
              r1,
              length-set ip.blks bn blkno ∙ ten,
              λ b' at' ne. absurd (ne (sym (same_some (sym at ∙ at')) ∙ none)),
              λ i ne. get_elem?-set_ne ip.blks bn i blkno (λ e. ne (sym e)),
              λ ne atxn2.
                  bmap_there (record ip { blks = set ip.blks bn blkno }) atxn2 bn blkno lt
                    (get_elem?-set_self ip.blks bn blkno inside) ne,
            )
      ]
    where
      same_some : {x y : ℕ} → some x ≡ some y → x ≡ y
      same_some e = cc e
