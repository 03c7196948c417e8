-- ===== src/Super/Regions.antt =====
-- super/super.go: the regions lie one after the other and hold what they are for.
use native.Mathlib.Nat.{mul-div_cancel, div-lt_iff_lt-mul, mul-le-mul, mod-lt, lt-mul-div-succ}
use native.Mathlib.Omega.{div_any}
use native.Mathlib.Decide.{ℕ_discrete}
use go_nfsd.Prelude.{
  ℕ, suc, ◌+◌, ◌*◌, ◌/◌, ◌%◌, ◌^◌, ◌≤◌, ◌<◌, ◌≡◌, ◌≢◌, inl, inr, sym, ap, ◌∙◌, IsU64, add64, mul64,
  arith,
}
use go_nfsd.External.World.{World, WorldLaws}
use go_nfsd.External.Journal.{Apart}
use go_nfsd.Super.{
  FsSuper, mk_fs_super, bitmap_block_start, bitmap_inode_start, inode_start, data_start, n_inode,
  inum2addr, max_bnum,
}

module _ (W : World) (H : WorldLaws W) (sz : ℕ) (sz64 : IsU64 sz) where
  abbrev fs : FsSuper
  fs = mk_fs_super W sz

  block_size_lem : W.block_size ≡ W.inodeblk * 128
  block_size_lem = sym H.inodeblk_lem ∙ ap (λ k. W.inodeblk * k) H.inodesz_lem

  nbitblock_lem : W.nbitblock ≡ W.inodeblk * 1024
  nbitblock_lem = omega (arith, H.nbitblock_lem, block_size_lem)

  n_inode_blk_lem : fs.n_inode_blk ≡ W.ninodebitmap * 1024
  unfolding mk_fs_super
  n_inode_blk_lem = simp (H.nbitblock_lem, H.inodesz_lem) (cancel W.ninodebitmap W.block_size pos)
    where
      pos : 0 < W.block_size
      pos = omega (arith, block_size_lem, H.inodeblk_large)

      cancel : (n b : ℕ) → 0 < b → n * (b * 8) * 128 / b ≡ n * 1024
      cancel n b h = ap (λ k. k / b) regroup ∙ mul-div_cancel (n * 1024) h
        where
          regroup : n * (b * 8) * 128 ≡ n * 1024 * b
          regroup = omega arith

  product_small : W.ninodebitmap * W.inodeblk ≤ 2 ^ 25
  product_small =
      bound W.ninodebitmap W.inodeblk H.ninodebitmap_small
        (omega (arith, block_size_lem, H.block_size_small))
    where
      bound : (n b : ℕ) → n ≤ 2 ^ 16 → b ≤ 2 ^ 9 → n * b ≤ 2 ^ 25
      bound n b hn hb = omega (arith, mul-le-mul hn hb)

  n_inode_lem : n_inode W fs ≡ W.ninodebitmap * W.nbitblock
  unfolding n_inode
  n_inode_lem = rw (n_inode_blk_lem, nbitblock_lem) (small W.ninodebitmap W.inodeblk product_small)
    where
      small : (n b : ℕ) → n * b ≤ 2 ^ 25 → n * 1024 * b % 2 ^ 64 ≡ n * (b * 1024)
      small n b h = omega arith

  nbitblock_large : 4096 ≤ W.nbitblock
  nbitblock_large = omega (arith, nbitblock_lem, H.inodeblk_large)

  quotient_small : sz / W.nbitblock < 2 ^ 52
  quotient_small =
      (div-lt_iff_lt-mul {k = W.nbitblock} {x = sz} {y = 2 ^ 52} (omega (arith, nbitblock_large))).1
        (omega (arith, nbitblock_large))

  bitmap_inode_start_lem : bitmap_inode_start fs ≡ W.logsize + suc (sz / W.nbitblock)
  unfolding bitmap_inode_start bitmap_block_start mk_fs_super
  bitmap_inode_start_lem = omega (arith, quotient_small, H.logsize_small)

  inode_start_lem : inode_start fs ≡ bitmap_inode_start fs + W.ninodebitmap
  unfolding inode_start mk_fs_super
  inode_start_lem =
      omega (arith, bitmap_inode_start_lem, quotient_small, H.logsize_small, H.ninodebitmap_small)

  data_start_lem : data_start fs ≡ inode_start fs + W.ninodebitmap * 1024
  unfolding data_start
  data_start_lem = omega (
    arith, inode_start_lem, n_inode_blk_lem, bitmap_inode_start_lem, quotient_small,
    H.logsize_small, H.ninodebitmap_small,
  )

  div_mono : (n m : ℕ) → n < m → n / W.nbitblock < suc (m / W.nbitblock)
  div_mono n m lt =
      (div-lt_iff_lt-mul {k = W.nbitblock} {x = n} {y = suc (m / W.nbitblock)} pos).1
        (omega (arith, lt-mul-div-succ m {b = W.nbitblock} pos))
    where
      pos : 0 < W.nbitblock
      pos = omega (arith, nbitblock_large)

  -- Every block of the disk has its bit in the block bitmap, which lies after the log and before the
  -- inode bitmap; every inode has its bit in the inode bitmap, which lies before the inodes.
  pub bits_lem :
      ((n : ℕ)
        → n < max_bnum fs
        → (W.logsize ≤ bitmap_block_start fs + n / W.nbitblock)
          × (bitmap_block_start fs + n / W.nbitblock < bitmap_inode_start fs))
      × ((i : ℕ)
          → i < n_inode W fs
          → (bitmap_inode_start fs + i / W.nbitblock < inode_start fs)
            × (inode_start fs ≤ data_start fs))
  unfolding bitmap_block_start max_bnum mk_fs_super
  bits_lem = (
    λ n lt. (omega arith, omega (arith, bitmap_inode_start_lem, div_mono n sz lt)),
    λ i lt. (
      omega (
        arith,
        inode_start_lem,
        (div-lt_iff_lt-mul {k = W.nbitblock} {x = i} {y = W.ninodebitmap}
              (omega (arith, nbitblock_large))).1
            (omega (arith, n_inode_lem)),
      ),
      omega (arith, data_start_lem),
    ),
  )

  div_range : (i : ℕ) → i < n_inode W fs → i / W.inodeblk < W.ninodebitmap * 1024
  div_range i lt =
      (div-lt_iff_lt-mul {k = W.inodeblk} {x = i} {y = W.ninodebitmap * 1024} pos).1 (
        omega (arith, lt, n_inode_lem, regroup W.ninodebitmap W.inodeblk W.nbitblock nbitblock_lem))
    where
      pos : 0 < W.inodeblk
      pos = omega (arith, H.inodeblk_large)

      regroup : (n b k : ℕ) → k ≡ b * 1024 → n * k ≡ n * 1024 * b
      regroup n b k e = rw e (omega arith)

  blkno_lem :
      (i : ℕ) → i < n_inode W fs → W.blkno (inum2addr W fs i) ≡ inode_start fs + i / W.inodeblk
  unfolding inum2addr
  blkno_lem i lt = omega (
    arith,
    H.blkno-mk_addr (add64 (inode_start fs) (i / W.inodeblk))
        (mul64 (mul64 (i % W.inodeblk) W.inodesz) 8),
    div_range i lt,
    inode_start_lem,
    bitmap_inode_start_lem,
    quotient_small,
    H.logsize_small,
    H.ninodebitmap_small,
  )

  slot : (i : ℕ) → i % W.inodeblk < W.inodeblk
  slot i = mod-lt i (omega (arith, H.inodeblk_large))

  off_lem : (i : ℕ) → W.off (inum2addr W fs i) ≡ i % W.inodeblk * 1024
  unfolding inum2addr
  off_lem i =
      H.off-mk_addr (add64 (inode_start fs) (i / W.inodeblk))
        (mul64 (mul64 (i % W.inodeblk) W.inodesz) 8)
      ∙ ap (λ k. mul64 (mul64 (i % W.inodeblk) k) 8) H.inodesz_lem
      ∙ omega (arith, slot i, block_size_lem, H.block_size_small)

  -- Every inode lies whole in one block of the inode region, and two inodes share no bit.
  pub inodes_lem :
      (i : ℕ)
      → i < n_inode W fs
      → (inode_start fs ≤ W.blkno (inum2addr W fs i))
        × (W.blkno (inum2addr W fs i) < data_start fs)
        × (W.off (inum2addr W fs i) + W.inodesz * 8 ≤ W.nbitblock)
        × ((j : ℕ)
            → j < n_inode W fs
            → i ≢ j
            → Apart W.journal (inum2addr W fs i) (W.inodesz * 8) (inum2addr W fs j) (W.inodesz * 8))
  inodes_lem i lt = (
    omega (arith, blkno_lem i lt),
    omega (arith, blkno_lem i lt, div_range i lt, data_start_lem),
    omega (arith, off_lem i, slot i, nbitblock_lem, H.inodesz_lem),
    λ j lt' ne. elim (ℕ_discrete (i / W.inodeblk) (j / W.inodeblk)) [
      | no other ↦ inl (omega (arith, blkno_lem i lt, blkno_lem j lt', other))
      | yes same ↦
          inr (omega (arith, off_lem i, off_lem j, H.inodesz_lem, mods i j W.inodeblk same ne))
    ],
  )
    where
      mods : (i j b : ℕ) → i / b ≡ j / b → i ≢ j → i % b ≢ j % b
      mods i j b same ne same_mod = ne (
          sym (div_any i b)
          ∙ ap (λ q. b * q + i % b) same
          ∙ ap (λ m. b * (j / b) + m) same_mod
          ∙ div_any j b)
