-- ===== src/Inode/Filled.antt =====
-- inode/inode.go: files whose blocks are direct ones, and what keeps them.
use go_nfsd.Prelude.{
  ℕ, suc, ◌+◌, ◌≤◌, ◌<◌, ◌≡◌, ◌≢◌, sym, ap, ◌∙◌, List, [], ◌∷◌, length, get_elem?, some, arith,
}
use go_nfsd.External.World.{World, WorldLaws}
use go_nfsd.Nfstypes.{Bytes}
use go_nfsd.Super.{block2addr}
use go_nfsd.Alloctxn.{AllocTxn}
use go_nfsd.Alloctxn.Calls.{InData}
use go_nfsd.Inode.Layout.{Inode, ndirect}
use go_nfsd.Inode.Direct.{bmap_there}
use go_nfsd.Inode.Contents.{block_size-pos, length-block, Stores}
use go_nfsd.Inode.Rounds.{Same}

module _ (W : World) (H : WorldLaws W) where
  -- The direct block `boff` of the file is there, and has the bytes `b`.
  pub record DirectBlock (ip : Inode) (atxn : AllocTxn W) (boff : ℕ) (b : Bytes) : Type 0 where
    pub direct : boff < ndirect
    pub blkno : ℕ
    pub at : get_elem? ip.blks boff ≡ some blkno
    pub there : blkno ≢ 0
    pub in_data : InData W atxn.super blkno
    pub content : W.read_buf atxn.op (block2addr W atxn.super blkno) W.nbitblock ≡ b

  abbrev pub Fills : Inode → AllocTxn W → ℕ → List Bytes → Type 0
  Fills ip atxn boff [] = Unit
  Fills ip atxn boff (b ∷ bs) = DirectBlock ip atxn boff b × Fills ip atxn (suc boff) bs

  pub Fills-Stores :
      (ip : Inode) (atxn : AllocTxn W) (boff : ℕ) (bs : List Bytes)
      → Fills ip atxn boff bs
      → Stores W H ip atxn boff bs
  Fills-Stores ip atxn boff [] fills = tt
  Fills-Stores ip atxn boff (b ∷ bs) fills =
      let d = fills.0 in
      (
        record {
          blkno = d.blkno;
          mapped = bmap_there W H ip atxn boff d.blkno d.direct d.at d.there;
          there = d.there;
          in_data = d.in_data;
          content = d.content;
        },
        Fills-Stores ip atxn (suc boff) bs fills.1,
      )

  pub length-DirectBlock :
      {ip : Inode} {atxn : AllocTxn W} {boff : ℕ} {b : Bytes}
      → DirectBlock ip atxn boff b
      → length b ≡ W.block_size
  length-DirectBlock d = ap length (sym d.content) ∙ length-block W H _ _

  -- No block is two direct blocks of the file.
  pub record Distinct (ip : Inode) : Type 0 where
    pub once :
        (i j b : ℕ)
        → i < ndirect
        → j < ndirect
        → b ≢ 0
        → get_elem? ip.blks i ≡ some b
        → get_elem? ip.blks j ≡ some b
        → i ≡ j

  -- A block that is the same after a change of the operation has the same bytes.
  pub content_kept :
      (op op' : W.Op) (blkno : ℕ)
      → Same W H op op' blkno
      → W.read_buf op' (W.mk_addr blkno 0) W.nbitblock
        ≡ W.read_buf op (W.mk_addr blkno 0) W.nbitblock
  content_kept op op' blkno same =
      rw H.nbitblock_lem
        (same (W.mk_addr blkno 0) W.block_size (H.blkno-mk_addr blkno 0) (block_size-pos W H))

  pub Fills-Same :
      (ip : Inode) (atxn : AllocTxn W) (op' : W.Op) (boff : ℕ) (bs : List Bytes)
      → ((i b : ℕ)
          → boff ≤ i
          → i < boff + length bs
          → i < ndirect
          → b ≢ 0
          → get_elem? ip.blks i ≡ some b
          → InData W atxn.super b
          → Same W H atxn.op op' b)
      → Fills ip atxn boff bs
      → Fills ip (record atxn { op = op' }) boff bs
  unfolding block2addr
  Fills-Same ip atxn op' boff [] same fills = tt
  Fills-Same ip atxn op' boff (b ∷ bs) same fills =
      let d = fills.0 in
      (
        record {
          direct = d.direct;
          blkno = d.blkno;
          at = d.at;
          there = d.there;
          in_data = d.in_data;
          content =
              content_kept atxn.op op' d.blkno
                (same boff d.blkno (omega arith) (omega arith) d.direct d.there d.at d.in_data)
              ∙ d.content;
        },
        Fills-Same ip atxn op' (suc boff) bs
            (λ i b le lt. same i b (omega (arith, le)) (omega (arith, lt))) fills.1,
      )

  -- The blocks after `boff` have other numbers.
  pub other_block :
      (ip : Inode) (boff i b : ℕ)
      → Distinct ip
      → suc boff ≤ i
      → boff < ndirect
      → i < ndirect
      → b ≢ 0
      → get_elem? ip.blks boff ≡ some b
      → get_elem? ip.blks i ≢ some b
  other_block ip boff i b once le direct small ne at at' =
      absurd (omega (arith, once.once boff i b direct small ne at at', le))
