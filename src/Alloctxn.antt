-- ===== src/Alloctxn.antt =====
-- alloctxn/alloctxn.go: transactions that allocate and free inodes and blocks. The two allocators are
-- shared by all transactions: a method returns them in the transaction after it.
pub mod Reserved
pub mod Calls
pub mod Numbers
pub mod Ends
use go_nfsd.Prelude.{
  ℕ, ◌-◌, ◌%◌, ◌^◌, List, [], ◌∷◌, ◌++◌, length, replicate, Bool, true, false, not, ◌&&◌, ◌||◌, ltb,
  leb, ◌==◌, if◌then◌else◌, Outcome, ok, panic, ◌>>=◌,
}
use go_nfsd.External.World.{World}
use go_nfsd.Nfstypes.{Bytes}
use go_nfsd.Super.{
  FsSuper, bitmap_block_start, bitmap_inode_start, data_start, max_bnum, block2addr,
}

module _ (W : World) where
  pub record AllocTxn : Type 0 where
    pub super : FsSuper
    pub op : W.Op
    pub balloc : W.Alloc
    pub ialloc : W.Alloc
    pub alloc_inums : List ℕ
    pub free_inums : List ℕ
    pub alloc_bnums : List ℕ
    pub free_bnums : List ℕ

  unfoldable pub begin : FsSuper → W.Log → W.Alloc → W.Alloc → AllocTxn
  begin super log balloc ialloc = record {
    super = super;
    op = W.begin log;
    balloc = balloc;
    ialloc = ialloc;
    alloc_inums = [];
    free_inums = [];
    alloc_bnums = [];
    free_bnums = [];
  }

  unfoldable pub alloc_inum : AllocTxn → ℕ × AllocTxn
  alloc_inum atxn =
      let (inum, ialloc') = W.alloc_num atxn.ialloc in
      let atxn' : AllocTxn = record atxn { ialloc = ialloc' } in
      (
        inum,
        if not (inum == W.nullinum)
            then record atxn' { alloc_inums = atxn'.alloc_inums ++ (inum ∷ []) }
            else atxn',
      )

  unfoldable pub free_inum : AllocTxn → ℕ → AllocTxn
  free_inum atxn inum = record atxn { free_inums = atxn.free_inums ++ (inum ∷ []) }

  -- `byte(1 << (n % 8))`, and its complement for a bit that is cleared.
  unfoldable pub bit_byte : ℕ → Bool → ℕ
  bit_byte n alloc = let b : ℕ = 2 ^ (n % 8) in if not alloc then 255 - b else b

  unfoldable pub write_bits : W.Op → List ℕ → ℕ → Bool → W.Op
  unfolding bit_byte
  write_bits op [] blk alloc = op
  write_bits op (n ∷ nums) blk alloc =
      write_bits (W.over_write op (W.mk_bit_addr blk n) 1 (bit_byte n alloc ∷ [])) nums blk alloc

  unfoldable pub pre_commit : AllocTxn → AllocTxn
  unfolding write_bits bitmap_inode_start bitmap_block_start
  pre_commit atxn =
      let op1 = write_bits atxn.op atxn.alloc_inums (bitmap_inode_start atxn.super) true in
      let op2 = write_bits op1 atxn.alloc_bnums (bitmap_block_start atxn.super) true in
      let op3 = write_bits op2 atxn.free_inums (bitmap_inode_start atxn.super) false in
      let op4 = write_bits op3 atxn.free_bnums (bitmap_block_start atxn.super) false in
      record atxn { op = op4 }

  -- The loops of `PostCommit` and `PostAbort`.
  unfoldable pub free_nums : W.Alloc → List ℕ → Outcome W.Alloc
  free_nums a [] = ok a
  free_nums a (n ∷ nums) = do a' ← W.free_num a n; free_nums a' nums

  unfoldable pub post_commit : AllocTxn → Outcome AllocTxn
  unfolding free_nums
  post_commit atxn = do
    ialloc' ← free_nums atxn.ialloc atxn.free_inums
    balloc' ← free_nums atxn.balloc atxn.free_bnums
    ok (record atxn { ialloc = ialloc'; balloc = balloc' })

  unfoldable pub post_abort : AllocTxn → Outcome AllocTxn
  unfolding free_nums
  post_abort atxn = do
    ialloc' ← free_nums atxn.ialloc atxn.alloc_inums
    balloc' ← free_nums atxn.balloc atxn.alloc_bnums
    ok (record atxn { ialloc = ialloc'; balloc = balloc' })

  unfoldable pub assert_valid_block : AllocTxn → ℕ → Outcome {0} Unit
  assert_valid_block atxn blkno =
      if ltb 0 blkno && (ltb blkno (data_start atxn.super) || leb (max_bnum atxn.super) blkno)
      then panic
      else ok tt

  unfoldable pub alloc_block : AllocTxn → Outcome (ℕ × AllocTxn)
  unfolding assert_valid_block
  alloc_block atxn = do
    let (bn, balloc') = W.alloc_num atxn.balloc
    let atxn' : AllocTxn = record atxn { balloc = balloc' }
    _ ← assert_valid_block atxn' bn
    ok (
      bn,
      if not (bn == W.nullbnum)
          then record atxn' { alloc_bnums = atxn'.alloc_bnums ++ (bn ∷ []) }
          else atxn',
    )

  -- The bytes of the buffer that `ReadBlock` returns.
  unfoldable pub read_block : AllocTxn → ℕ → Outcome Bytes
  unfolding assert_valid_block block2addr
  read_block atxn blkno = do
    _ ← assert_valid_block atxn blkno
    ok (W.read_buf atxn.op (block2addr W atxn.super blkno) W.nbitblock)

  unfoldable pub zero_block : AllocTxn → ℕ → Outcome AllocTxn
  unfolding read_block
  zero_block atxn blkno = do
    bytes ← read_block atxn blkno
    ok (record atxn {
      op =
          W.set_dirty atxn.op (block2addr W atxn.super blkno) W.nbitblock
            (replicate (length bytes) 0);
    })

  unfoldable pub free_block : AllocTxn → ℕ → Outcome AllocTxn
  unfolding zero_block assert_valid_block
  free_block atxn blkno = do
    _ ← assert_valid_block atxn blkno
    if blkno == 0 then ok atxn else (do
      atxn' ← zero_block atxn blkno
      ok (record atxn' { free_bnums = atxn'.free_bnums ++ (blkno ∷ []) }))
