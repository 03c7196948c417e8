-- ===== src/Nfs/Mkfs.antt =====
-- nfs/nfs.go: how an empty file system is written to the disk, and fstxn/fsstate.go: how its bitmaps
-- are read.
use go_nfsd.Prelude.{
  ℕ, zero, suc, ◌+◌, ◌-◌, ◌*◌, ◌/◌, ◌%◌, ◌^◌, [], ◌++◌, Bool, true, false, not, ltb, leb, ◌||◌,
  ◌==◌, if◌then◌else◌, add64, mul64, index, store, make_bytes, Outcome, ok, panic, ◌>>=◌,
}
use go_nfsd.External.World.{World}
use go_nfsd.External.Disks.{Disks}
use go_nfsd.Nfstypes.{Bytes, Nfstime3}
use go_nfsd.Super.{FsSuper, max_bnum, bitmap_block_start, bitmap_inode_start, data_start, inum2addr}
use go_nfsd.Inode.Layout.{Inode, mk_root_inode, encode, decode}

-- `b | 1 << bit`
unfoldable pub set_bit : ℕ → ℕ → ℕ
set_bit b bit = if (b / 2 ^ bit) % 2 == 1 then b else b + 2 ^ bit

-- The loops of `markAlloc`: the bits from `bn` on, for `n` rounds.
unfoldable pub mark_loop : ℕ → ℕ → Bytes → Outcome Bytes
unfolding index set_bit store
mark_loop zero bn blk = ok blk
mark_loop (suc n) bn blk = do
  b ← index blk (bn / 8)
  blk ← store blk (bn / 8) (set_bit b (bn % 8))
  mark_loop n (suc bn) blk

module _ (W : World) (D : Disks W) where
  -- The blocks that `markAlloc` marks: those below `n`, then those from `m` on in the block of `m`. The
  -- second block is the first one when `m` lies in it.
  unfoldable pub mark_blocks : ℕ → ℕ → Outcome (Bytes × Bytes)
  unfolding make_bytes mark_loop
  mark_blocks n m = do
    blk ← make_bytes W.block_size
    blk ← mark_loop n 0 blk
    blk1 ← if ltb 0 (m / W.nbitblock) then make_bytes W.block_size else ok blk
    blk1 ← mark_loop (W.nbitblock - m % W.nbitblock) (m % W.nbitblock) blk1
    ok (blk, blk1)

  unfoldable pub mark_alloc : FsSuper → D.Disk → ℕ → ℕ → Outcome D.Disk
  unfolding mark_blocks mark_loop make_bytes bitmap_block_start bitmap_inode_start
  mark_alloc super d n m =
      if leb W.nbitblock n || leb (mul64 W.nbitblock super.n_block_bitmap) m || ltb m n
      then panic
      else (do
        (blk, blk1) ← mark_blocks n m
        let d1 = D.write d (bitmap_block_start super) blk
        let d2 = D.write d1 (add64 (m / W.nbitblock) (bitmap_block_start super)) blk1
        blk2 ← make_bytes W.block_size
        blk2 ← mark_loop 2 0 blk2
        ok (D.write d2 (bitmap_inode_start super) blk2))

  unfoldable pub make_fs : FsSuper → D.Disk → Nfstime3 → Outcome D.Disk
  unfolding mk_root_inode encode inum2addr mark_alloc data_start max_bnum
  make_fs super d now = do
    rootblk ← encode W (mk_root_inode W now)
    let d1 = D.write_direct d (inum2addr W super W.rootinum) (W.inodesz * 8) rootblk
    mark_alloc super d1 (data_start super) (max_bnum super)

  unfoldable pub read_root_inode : FsSuper → D.Disk → Outcome Inode
  unfolding inum2addr decode
  read_root_inode super d =
      let addr = inum2addr W super W.rootinum in
      decode W (D.load addr (W.inodesz * 8) (D.read d (W.blkno addr))) W.rootinum

  unfoldable pub read_bitmap : D.Disk → ℕ → ℕ → Bytes
  read_bitmap d start zero = []
  read_bitmap d start (suc n) = D.read d start ++ read_bitmap d (add64 start 1) n

  -- Whether a file system is made, and the disk with one.
  unfoldable pub prepare : FsSuper → D.Disk → Nfstime3 → Outcome (Bool × D.Disk)
  unfolding read_root_inode make_fs
  prepare super d now = do
    i ← read_root_inode super d
    if not (i.kind == 0) then ok (false, d) else (do d' ← make_fs super d now; ok (true, d'))
