-- ===== src/Inode/Sizes.antt =====
-- inode/inode.go `Resize` and inode/shrink.go: a file that shrinks frees its blocks one by one, in
-- several transactions if they do not fit into one.
use go_nfsd.Prelude.{
  ℕ, zero, suc, ◌-◌, ◌/◌, ◌%◌, Bool, true, false, not, ◌&&◌, ltb, ◌==◌, if◌then◌else◌, add64, sub64,
  mul64, Outcome, ok, ◌>>=◌, index, store,
}
use go_nfsd.External.World.{World}
use go_nfsd.Alloctxn.{AllocTxn, read_block, free_block, assert_valid_block}
use go_nfsd.Inode.Layout.{Inode, ndirect, indirect, dindirect, nblkblk, pow, write_inode}
use go_nfsd.Inode.Blocks.{buf_bnum_put}

module _ (W : World) where
  unfoldable pub shrink_fits : AllocTxn W → ℕ → Bool
  shrink_fits atxn nblk = ltb (add64 (W.n_dirty atxn.op) nblk) W.log_blocks

  unfoldable pub is_shrinking : Inode → Bool
  is_shrinking ip = let cursz = W.round_up ip.size W.block_size in ltb cursz ip.shrink_size

  unfoldable pub free_index : Inode → AllocTxn W → ℕ → Outcome (Inode × AllocTxn W)
  unfolding free_block
  free_index ip atxn i = do
    b ← index ip.blks i
    atxn ← free_block W atxn b
    blks ← store ip.blks i 0
    ok (record ip { blks = blks }, atxn)

  -- The root if it is free now, or 0, and the transaction.
  unfoldable pub indshrink : AllocTxn W → ℕ → ℕ → ℕ → Outcome (ℕ × AllocTxn W)
  unfolding read_block assert_valid_block free_block buf_bnum_put pow
  indshrink atxn root zero bn = ok (if root == W.nullbnum then 0 else root, atxn)
  indshrink atxn root (suc level) bn = if root == W.nullbnum then ok (0, atxn) else (do
    let divisor = pow W level
    let off = bn / divisor
    let ind = bn % divisor
    let boff = mul64 off 8
    b ← read_block W atxn root
    nxtroot ← W.bnum_get b boff
    _ ← assert_valid_block W atxn nxtroot
    (freeroot, atxn) ←
        (if not (nxtroot == 0) then indshrink atxn nxtroot level ind else ok (0, atxn))
    atxn ←
        (if not (freeroot == 0)
          then (do atxn ← buf_bnum_put W atxn root boff 0; free_block W atxn freeroot)
          else ok atxn)
    ok (if off == 0 && ind == 0 then root else W.nullbnum, atxn))

  -- An indirect block of the inode: `indshrink`, and `freeIndex` when all of it is free.
  unfoldable pub shrink_index : Inode → AllocTxn W → ℕ → ℕ → ℕ → Outcome (Inode × AllocTxn W)
  unfolding indshrink free_index
  shrink_index ip atxn i level off = do
    root ← index ip.blks i
    (freeroot, atxn) ← indshrink atxn root level off
    if not (freeroot == 0) then free_index ip atxn i else ok (ip, atxn)

  -- The body of the loop of `Shrink`.
  unfoldable pub shrink_one : Inode → AllocTxn W → Outcome (Inode × AllocTxn W)
  unfolding free_index shrink_index nblkblk
  shrink_one ip0 atxn =
      let ip : Inode = record ip0 { shrink_size = sub64 ip0.shrink_size 1 } in
      if ltb ip.shrink_size ndirect
      then free_index ip atxn ip.shrink_size
      else let off = ip.shrink_size - ndirect in
        if ltb off (nblkblk W)
        then shrink_index ip atxn indirect 1 off
        else shrink_index ip atxn dindirect 2 (off - nblkblk W)

  -- The loop ends when the shrink size has come down to the size, so that the shrink size is fuel
  -- enough.
  unfoldable pub shrink_loop : ℕ → Inode → AllocTxn W → Outcome (Inode × AllocTxn W)
  unfolding is_shrinking shrink_fits shrink_one
  shrink_loop zero ip atxn = ok (ip, atxn)
  shrink_loop (suc fuel) ip atxn =
      if is_shrinking ip && shrink_fits atxn 5
      then (do (ip, atxn) ← shrink_one ip atxn; shrink_loop fuel ip atxn)
      else ok (ip, atxn)

  -- Whether more is left, the inode and the transaction.
  unfoldable pub shrink : Inode → AllocTxn W → Outcome (Bool × Inode × AllocTxn W)
  unfolding shrink_loop write_inode
  shrink ip atxn = do
    (ip, atxn) ← shrink_loop ip.shrink_size ip atxn
    atxn ← write_inode W ip atxn
    ok (is_shrinking ip, ip, atxn)

  unfoldable pub resize : Inode → AllocTxn W → ℕ → Outcome (Bool × Inode × AllocTxn W)
  unfolding shrink shrink_fits write_inode
  resize ip0 atxn sz = do
    let oldsz = W.round_up ip0.size W.block_size
    let new_sz = W.round_up sz W.block_size
    let ip : Inode = record ip0 {
      size = sz;
      shrink_size = if ltb new_sz oldsz then oldsz else new_sz;
    }
    atxn ← write_inode W ip atxn
    if ltb new_sz oldsz
        then (if shrink_fits atxn (oldsz - new_sz)
            then (do (_, ip, atxn) ← shrink ip atxn; ok (false, ip, atxn))
            else ok (true, ip, atxn))
        else ok (false, ip, atxn)
