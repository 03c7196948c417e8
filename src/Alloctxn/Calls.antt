-- ===== src/Alloctxn/Calls.antt =====
-- alloctxn/alloctxn.go: the calls that allocate and free, and what each reserves.
use native.Mathlib.Decide.{ℕ_discrete}
use go_nfsd.Prelude.{
  ℕ, ◌≤◌, ◌<◌, ◌≡◌, ◌≢◌, ◌⊎◌, inl, inr, refl, replicate, length, Bool, true, false, List, [], ◌∷◌,
  ◌++◌, ◌==◌, ==_iff, ltb, leb, ◌&&◌, ◌||◌, Outcome, ok, ◌>>=◌, arith,
}
use go_nfsd.External.World.{World, WorldLaws}
use go_nfsd.Super.{FsSuper, data_start, max_bnum, block2addr}
use go_nfsd.Alloctxn.{
  AllocTxn, alloc_inum, free_inum, alloc_block, free_block, read_block, zero_block,
  assert_valid_block,
}
use go_nfsd.Alloctxn.Reserved.{
  has, has-append, NoZero, NoZero-append, Reserves, Reserves-alloc_num, Reserves-none,
}

-- The calls of a transaction that allocate and free.
pub data Call : Type 0 where
  call_alloc_inum : Call
  call_free_inum : ℕ → Call
  call_alloc_block : Call
  call_free_block : ℕ → Call

module _ (W : World) where
  abbrev pub step : AllocTxn W → Call → Outcome (AllocTxn W)
  step atxn call_alloc_inum = ok (alloc_inum W atxn).1
  step atxn (call_free_inum inum) = ok (free_inum W atxn inum)
  step atxn call_alloc_block = do (_, atxn') ← alloc_block W atxn; ok atxn'
  step atxn (call_free_block blkno) = free_block W atxn blkno

  abbrev pub run : AllocTxn W → List Call → Outcome (AllocTxn W)
  run atxn [] = ok atxn
  run atxn (c ∷ calls) = do atxn' ← step atxn c; run atxn' calls

  -- The frees are of inodes other than 0, and of block 0, which is none, or blocks in the data region.
  abbrev pub InData : FsSuper → ℕ → Type 0
  InData super blkno = (data_start super ≤ blkno) × (blkno < max_bnum super)

  abbrev pub ValidCalls : FsSuper → List Call → Type 0
  ValidCalls super [] = Unit
  ValidCalls super (call_free_block blkno ∷ calls) =
      ((blkno ≡ 0) ⊎ InData super blkno) × ValidCalls super calls
  ValidCalls super (call_free_inum inum ∷ calls) = (inum ≢ 0) × ValidCalls super calls
  ValidCalls super (call_alloc_inum ∷ calls) = ValidCalls super calls
  ValidCalls super (call_alloc_block ∷ calls) = ValidCalls super calls

module _ (W : World) (H : WorldLaws W) where
  pub record Runs (super : FsSuper) (ib bb : ℕ → Bool) (atxn : AllocTxn W) : Type 0 where
    pub layout : atxn.super ≡ super
    pub inums : Reserves W H ib atxn.ialloc atxn.alloc_inums
    pub bnums : Reserves W H bb atxn.balloc atxn.alloc_bnums
    pub free_inums : NoZero atxn.free_inums
    pub free_bnums : NoZero atxn.free_bnums

  pub assert_valid :
      (atxn : AllocTxn W) (blkno : ℕ)
      → (blkno ≡ 0) ⊎ InData W atxn.super blkno
      → assert_valid_block W atxn blkno ≡ ok tt
  unfolding assert_valid_block
  assert_valid atxn blkno h = rw (test h) refl
    where
      test :
          (blkno ≡ 0) ⊎ InData W atxn.super blkno
          → (ltb 0 blkno && (ltb blkno (data_start atxn.super) || leb (max_bnum atxn.super) blkno))
            ≡ false
      test h = ground arith

  pub alloc_inum_lem :
      (super : FsSuper) (ib bb : ℕ → Bool) (atxn : AllocTxn W)
      → Runs super ib bb atxn
      → Runs super ib bb (alloc_inum W atxn).1
  unfolding alloc_inum
  alloc_inum_lem super ib bb atxn r = elim (ℕ_discrete (W.alloc_num atxn.ialloc).0 0) [
    | yes none ↦
        let test : ((W.alloc_num atxn.ialloc).0 == W.nullinum) ≡ true =
          rw (none, H.nullinum_zero) refl in
        rw test (record {
          layout = r.layout;
          inums = Reserves-none W H ib atxn.ialloc atxn.alloc_inums r.inums none;
          bnums = r.bnums;
          free_inums = r.free_inums;
          free_bnums = r.free_bnums;
        })
    | no num ↦
        let test : ((W.alloc_num atxn.ialloc).0 == W.nullinum) ≡ false =
          rw H.nullinum_zero (ground arith) in
        rw test (record {
          layout = r.layout;
          inums = Reserves-alloc_num W H ib atxn.ialloc atxn.alloc_inums r.inums num;
          bnums = r.bnums;
          free_inums = r.free_inums;
          free_bnums = r.free_bnums;
        })
  ]

  pub free_inum_lem :
      (super : FsSuper) (ib bb : ℕ → Bool) (atxn : AllocTxn W) (inum : ℕ)
      → Runs super ib bb atxn
      → inum ≢ 0
      → Runs super ib bb (free_inum W atxn inum)
  unfolding free_inum
  free_inum_lem super ib bb atxn inum r some_inum = record {
    layout = r.layout;
    inums = r.inums;
    bnums = r.bnums;
    free_inums = NoZero-append atxn.free_inums inum r.free_inums some_inum;
    free_bnums = r.free_bnums;
  }

  pub alloc_block_lem :
      (super : FsSuper) (ib bb : ℕ → Bool)
      → ((n : ℕ) → n ≢ 0 → bb n ≡ false → InData W super n)
      → (atxn : AllocTxn W) → Runs super ib bb atxn
      → (atxn' : AllocTxn W) × (alloc_block W atxn ≡ ok ((W.alloc_num atxn.balloc).0, atxn'))
        × Runs super ib bb atxn'
  unfolding alloc_block
  alloc_block_lem super ib bb room atxn r = elim (ℕ_discrete (W.alloc_num atxn.balloc).0 0) [
    | yes none ↦
        let test : ((W.alloc_num atxn.balloc).0 == W.nullbnum) ≡ true =
          rw (none, H.nullbnum_zero) refl in
        (
          record atxn { balloc = (W.alloc_num atxn.balloc).1 },
          rw
              (
                assert_valid (record atxn { balloc = (W.alloc_num atxn.balloc).1 })
                    (W.alloc_num atxn.balloc).0 (inl none),
                test,
              )
              refl,
          record {
            layout = r.layout;
            inums = r.inums;
            bnums = Reserves-none W H bb atxn.balloc atxn.alloc_bnums r.bnums none;
            free_inums = r.free_inums;
            free_bnums = r.free_bnums;
          },
        )
    | no num ↦
        let test : ((W.alloc_num atxn.balloc).0 == W.nullbnum) ≡ false =
          rw H.nullbnum_zero (ground arith) in
        let more = Reserves-alloc_num W H bb atxn.balloc atxn.alloc_bnums r.bnums num in
        let free =
          (more.fresh (W.alloc_num atxn.balloc).0
            (last atxn.alloc_bnums (W.alloc_num atxn.balloc).0)).1 in
        (
          record atxn {
            balloc = (W.alloc_num atxn.balloc).1;
            alloc_bnums = atxn.alloc_bnums ++ ((W.alloc_num atxn.balloc).0 ∷ []);
          },
          rw
              (
                assert_valid (record atxn { balloc = (W.alloc_num atxn.balloc).1 })
                    (W.alloc_num atxn.balloc).0 (inr (rw r.layout (room _ num free))),
                test,
              )
              refl,
          record {
            layout = r.layout;
            inums = r.inums;
            bnums = more;
            free_inums = r.free_inums;
            free_bnums = r.free_bnums;
          },
        )
  ]
    where
      last : (l : List ℕ) (x : ℕ) → has (l ++ (x ∷ [])) x ≡ true
      last l x = rw (has-append l x x, (==_iff x x).1 refl) refl

  pub free_block_lem :
      (super : FsSuper) (ib bb : ℕ → Bool) (atxn : AllocTxn W) (blkno : ℕ)
      → Runs super ib bb atxn
      → (blkno ≡ 0) ⊎ InData W super blkno
      → (atxn' : AllocTxn W) × (free_block W atxn blkno ≡ ok atxn') × Runs super ib bb atxn'
  unfolding free_block zero_block read_block
  free_block_lem super ib bb atxn blkno r valid = elim (ℕ_discrete blkno 0) [
    | yes none ↦
        let test : (blkno == 0) ≡ true = (==_iff blkno 0).1 none in
        (atxn, rw (assert_valid atxn blkno (rw r.layout valid), test) refl, r)
    | no some_blk ↦
        let test : (blkno == 0) ≡ false = ground arith in
        (
          record atxn {
            op = W.set_dirty atxn.op (block2addr W atxn.super blkno) W.nbitblock (
                replicate (length (W.read_buf atxn.op (block2addr W atxn.super blkno) W.nbitblock))
                  0);
            free_bnums = atxn.free_bnums ++ (blkno ∷ []);
          },
          rw (assert_valid atxn blkno (rw r.layout valid), test) refl,
          record {
            layout = r.layout;
            inums = r.inums;
            bnums = r.bnums;
            free_inums = r.free_inums;
            free_bnums = NoZero-append atxn.free_bnums blkno r.free_bnums some_blk;
          },
        )
  ]
