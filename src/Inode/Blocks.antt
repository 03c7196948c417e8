-- ===== src/Inode/Blocks.antt =====
-- inode/inode.go `indbmap` and `bmap`: from a block of a file to a block of the disk, which is
-- allocated on demand.
use go_nfsd.Prelude.{
  ℕ, zero, suc, ◌-◌, ◌/◌, ◌%◌, Bool, false, not, ltb, ◌==◌, if◌then◌else◌, mul64, Outcome, ok,
  ◌>>=◌, index, store,
}
use go_nfsd.External.World.{World}
use go_nfsd.Super.{block2addr}
use go_nfsd.Alloctxn.{AllocTxn, alloc_block, read_block, assert_valid_block}
use go_nfsd.Inode.Layout.{Inode, ndirect, indirect, dindirect, nblkblk, pow}

module _ (W : World) where
  -- `buf.BnumPut` on the buffer of block `blkno`, as it is by then.
  unfoldable pub buf_bnum_put : AllocTxn W → ℕ → ℕ → ℕ → Outcome (AllocTxn W)
  unfolding block2addr
  buf_bnum_put atxn blkno bo bn = do
    let a = block2addr W atxn.super blkno
    bytes ← W.bnum_put (W.read_buf atxn.op a W.nbitblock) bo bn
    ok (record atxn { op = W.set_dirty atxn.op a W.nbitblock bytes })

  -- The root of `indbmap`: a new block if there is none.
  unfoldable pub root_block : AllocTxn W → ℕ → Outcome (ℕ × AllocTxn W)
  unfolding alloc_block
  root_block atxn root = if root == W.nullbnum then alloc_block W atxn else ok (root, atxn)

  -- The block, the root, and the transaction.
  unfoldable pub indbmap : AllocTxn W → ℕ → ℕ → ℕ → Outcome (ℕ × ℕ × AllocTxn W)
  unfolding root_block buf_bnum_put read_block assert_valid_block pow
  indbmap atxn root_ zero off = do (root, atxn) ← root_block atxn root_; ok (root, root, atxn)
  indbmap atxn root_ (suc level) off = do
    (root, atxn) ← root_block atxn root_
    if root == W.nullbnum then ok (root, root, atxn) else (do
      let divisor = pow W level
      let o = off / divisor
      let bo = mul64 o 8
      let ind = off % divisor
      buf ← read_block W atxn root
      nxtroot ← W.bnum_get buf bo
      (blkno, newnextroot, atxn) ← indbmap atxn nxtroot level ind
      _ ← assert_valid_block W atxn newnextroot
      _ ← assert_valid_block W atxn blkno
      atxn ←
          (if not (newnextroot == nxtroot) then buf_bnum_put atxn root bo newnextroot else ok atxn)
      ok (blkno, root, atxn))

  -- The block, whether the inode has changed, the inode and the transaction.
  unfoldable pub bmap : Inode → AllocTxn W → ℕ → Outcome (ℕ × Bool × Inode × AllocTxn W)
  unfolding alloc_block indbmap nblkblk
  bmap ip atxn bn =
      if ltb bn ndirect
      then (do
        b ← index ip.blks bn
        if b == W.nullbnum
            then (do
              (blkno, atxn') ← alloc_block W atxn
              blks ← store ip.blks bn blkno
              ok (blkno, not (blkno == W.nullbnum), record ip { blks = blks }, atxn'))
            else ok (b, false, ip, atxn))
      else if ltb (bn - ndirect) (nblkblk W)
      then (do
        ind ← index ip.blks indirect
        (blkno, root, atxn') ← indbmap atxn ind 1 (bn - ndirect)
        let alloc = not (root == ind)
        blks ← (if alloc then store ip.blks indirect root else ok ip.blks)
        ok (blkno, alloc, record ip { blks = blks }, atxn'))
      else (do
        dind ← index ip.blks dindirect
        (blkno, root, atxn') ← indbmap atxn dind 2 (bn - ndirect - nblkblk W)
        ind ← index ip.blks indirect
        let alloc = not (root == ind)
        blks ← (if alloc then store ip.blks dindirect root else ok ip.blks)
        ok (blkno, alloc, record ip { blks = blks }, atxn'))
