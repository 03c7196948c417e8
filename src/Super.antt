-- ===== src/Super.antt =====
-- super/super.go: the regions of the disk.
pub mod Regions
use go_nfsd.Prelude.{ℕ, ◌+◌, ◌*◌, ◌/◌, ◌%◌, add64, mul64}
use go_nfsd.External.World.{World}

-- The disk itself stays outside: only its size counts here.
pub record FsSuper : Type 0 where
  pub size : ℕ
  pub n_log : ℕ
  pub n_block_bitmap : ℕ
  pub n_inode_bitmap : ℕ
  pub n_inode_blk : ℕ
  pub maxaddr : ℕ

module _ (W : World) where
  -- `sz` is `d.Size()`.
  unfoldable pub mk_fs_super : ℕ → FsSuper
  mk_fs_super sz = record {
    size = sz;
    n_log = W.logsize;
    n_block_bitmap = add64 (sz / W.nbitblock) 1;
    n_inode_bitmap = W.ninodebitmap;
    n_inode_blk = W.ninodebitmap * W.nbitblock * W.inodesz / W.block_size;
    maxaddr = sz;
  }

unfoldable pub max_bnum : FsSuper → ℕ
max_bnum fs = fs.maxaddr

unfoldable pub bitmap_block_start : FsSuper → ℕ
bitmap_block_start fs = fs.n_log

unfoldable pub bitmap_inode_start : FsSuper → ℕ
unfolding bitmap_block_start
bitmap_inode_start fs = add64 (bitmap_block_start fs) fs.n_block_bitmap

unfoldable pub inode_start : FsSuper → ℕ
unfolding bitmap_inode_start
inode_start fs = add64 (bitmap_inode_start fs) fs.n_inode_bitmap

unfoldable pub data_start : FsSuper → ℕ
unfolding inode_start
data_start fs = add64 (inode_start fs) fs.n_inode_blk

module _ (W : World) where
  unfoldable pub block2addr : FsSuper → ℕ → W.Addr
  block2addr fs blkno = W.mk_addr blkno 0

  unfoldable pub n_inode : FsSuper → ℕ
  n_inode fs = mul64 fs.n_inode_blk W.inodeblk

  unfoldable pub inum2addr : FsSuper → ℕ → W.Addr
  unfolding inode_start
  inum2addr fs inum =
      W.mk_addr (add64 (inode_start fs) (inum / W.inodeblk))
        (mul64 (mul64 (inum % W.inodeblk) W.inodesz) 8)
