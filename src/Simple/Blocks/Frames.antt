-- ===== src/Simple/Blocks/Frames.antt =====
-- The writes of the server against the files they leave alone.
use go_nfsd.Prelude.{ℕ, ◌+◌, ◌*◌, ◌<◌, ◌≡◌, ◌≢◌, ap, inl, inr, length, arith}
use native.Mathlib.Decide.{dec_lt}
use go_nfsd.External.World.{World, WorldLaws}
use go_nfsd.External.Journal.{Apart}
use go_nfsd.Nfstypes.{Bytes}
use go_nfsd.Simple.Layout.{block2addr, inum2addr}
use go_nfsd.Simple.Blocks.{data_bnum}

module _ (W : World) (H : WorldLaws W) where
  -- A block at `logsize + 1` or above shares no bit with an inode.
  block-Apart-inode :
      (i j : ℕ)
      → Apart W.journal
          (block2addr W (data_bnum W i))
          (W.block_size * 8)
          (inum2addr W j)
          (W.inodesz * 8)
  unfolding block2addr inum2addr
  block-Apart-inode i j = inl (
      omega (
        arith,
        H.blkno-mk_addr (W.logsize + 1 + i) 0,
        H.blkno-mk_addr W.logsize (j * W.inodesz * 8),
      ))

  block-Apart-block :
      (i j : ℕ)
      → i ≢ j
      → Apart W.journal
          (block2addr W (data_bnum W i))
          (W.block_size * 8)
          (block2addr W (data_bnum W j))
          (W.block_size * 8)
  unfolding block2addr
  block-Apart-block i j ne =
      inl (
        omega (arith, H.blkno-mk_addr (W.logsize + 1 + i) 0, H.blkno-mk_addr (W.logsize + 1 + j) 0))

  inode-Apart-block :
      (i j : ℕ)
      → Apart W.journal
          (inum2addr W i)
          (W.inodesz * 8)
          (block2addr W (data_bnum W j))
          (W.block_size * 8)
  unfolding block2addr inum2addr
  inode-Apart-block i j = inl (
      omega (
        arith,
        H.blkno-mk_addr W.logsize (i * W.inodesz * 8),
        H.blkno-mk_addr (W.logsize + 1 + j) 0,
      ))

  inode-Apart-inode :
      (i j : ℕ)
      → i ≢ j
      → Apart W.journal (inum2addr W i) (W.inodesz * 8) (inum2addr W j) (W.inodesz * 8)
  unfolding inum2addr
  inode-Apart-inode i j ne = inr (elim (dec_lt i j) [
    | yes h ↦ inl (omega (arith, offs, scaled i, scaled j))
    | no h ↦ inr (omega (arith, offs, scaled i, scaled j))
  ])
    where
      scaled : (k : ℕ) → k * W.inodesz ≡ k * 128
      scaled k = ap (λ n. k * n) H.inodesz_lem

      offs :
          (W.off (W.mk_addr W.logsize (i * W.inodesz * 8)) ≡ i * W.inodesz * 8)
          × (W.off (W.mk_addr W.logsize (j * W.inodesz * 8)) ≡ j * W.inodesz * 8)
          × (W.inodesz ≡ 128)
      offs = (H.off-mk_addr W.logsize _, H.off-mk_addr W.logsize _, H.inodesz_lem)

  block_pos : 0 < W.block_size
  block_pos = grind (arith, H.inodeblk_lem, H.inodesz_lem, H.inodeblk_large)

  -- A new block content for file `i` is seen as the content of its block.
  pub read-set_block :
      (op : W.Op) (i : ℕ) (d : Bytes)
      → length d ≡ W.block_size
      → W.read_buf
          (W.set_dirty op (block2addr W (data_bnum W i)) W.nbitblock d)
          (block2addr W (data_bnum W i))
          W.nbitblock
        ≡ d
  read-set_block op i d len = simp H.nbitblock_lem (H.set_dirty_self op _ W.block_size d len)

  -- It changes no inode, and no other file's block.
  pub set_block-inode :
      (op : W.Op) (i j : ℕ) (d : Bytes)
      → length d ≡ W.block_size
      → W.read_buf
          (W.set_dirty op (block2addr W (data_bnum W i)) W.nbitblock d)
          (inum2addr W j)
          (W.inodesz * 8)
        ≡ W.read_buf op (inum2addr W j) (W.inodesz * 8)
  set_block-inode op i j d len = simp H.nbitblock_lem (
      H.set_dirty_apart op _ W.block_size d _ W.inodesz len block_pos (omega (arith, H.inodesz_lem))
        (block-Apart-inode i j))

  pub set_block-block :
      (op : W.Op) (i j : ℕ) (d : Bytes)
      → i ≢ j
      → length d ≡ W.block_size
      → W.read_buf
          (W.set_dirty op (block2addr W (data_bnum W i)) W.nbitblock d)
          (block2addr W (data_bnum W j))
          W.nbitblock
        ≡ W.read_buf op (block2addr W (data_bnum W j)) W.nbitblock
  set_block-block op i j d ne len = simp H.nbitblock_lem (
      H.set_dirty_apart op _ W.block_size d _ W.block_size len block_pos block_pos
        (block-Apart-block i j ne))

  -- A new inode changes no other inode, and no file's block.
  pub over_inode-inode :
      (op : W.Op) (i j : ℕ) (d : Bytes)
      → i ≢ j
      → length d ≡ W.inodesz
      → W.read_buf
          (W.over_write op (inum2addr W i) (W.inodesz * 8) d)
          (inum2addr W j)
          (W.inodesz * 8)
        ≡ W.read_buf op (inum2addr W j) (W.inodesz * 8)
  over_inode-inode op i j d ne len =
      let pos : 0 < W.inodesz = omega (arith, H.inodesz_lem) in
      H.over_write_apart op _ W.inodesz d _ W.inodesz len pos pos (inode-Apart-inode i j ne)

  pub over_inode-block :
      (op : W.Op) (i j : ℕ) (d : Bytes)
      → length d ≡ W.inodesz
      → W.read_buf
          (W.over_write op (inum2addr W i) (W.inodesz * 8) d)
          (block2addr W (data_bnum W j))
          W.nbitblock
        ≡ W.read_buf op (block2addr W (data_bnum W j)) W.nbitblock
  over_inode-block op i j d len = simp H.nbitblock_lem (
      H.over_write_apart op _ W.inodesz d _ W.block_size len (omega (arith, H.inodesz_lem))
        block_pos (inode-Apart-block i j))
