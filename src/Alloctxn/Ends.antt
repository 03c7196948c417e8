-- ===== src/Alloctxn/Ends.antt =====
-- alloctxn/alloctxn.go: the shared allocators after the commit and after the abort of a transaction.
use go_nfsd.Prelude.{
  ℕ, ◌≡◌, ◌≢◌, refl, ◌∙◌, Bool, true, false, List, [], ◌∷◌, if◌then◌else◌, ok, ◌>>=◌, subst, Gives,
}
use go_nfsd.External.World.{World, WorldLaws}
use go_nfsd.Super.{FsSuper}
use go_nfsd.Alloctxn.{AllocTxn, begin, free_inum, post_commit, post_abort}
use go_nfsd.Alloctxn.Reserved.{has, free_nums_lem, give_back}
use go_nfsd.Alloctxn.Numbers.{
  freed_inums, freed_bnums, taken_inums, taken_bnums, Recorded, run-Recorded,
}
use go_nfsd.Alloctxn.Calls.{
  Call, call_alloc_inum, call_free_inum, call_alloc_block, call_free_block, run, InData, ValidCalls,
  Runs, alloc_inum_lem, free_inum_lem, alloc_block_lem, free_block_lem,
}

module _ (W : World) (H : WorldLaws W) where
  -- Every run of valid calls ends without a panic, and keeps track of what it reserves.
  run_lem :
      (super : FsSuper) (ib bb : ℕ → Bool)
      → ((n : ℕ) → n ≢ 0 → bb n ≡ false → InData W super n)
      → (atxn : AllocTxn W) (calls : List Call) → Runs W H super ib bb atxn
      → ValidCalls W super calls
      → (atxn' : AllocTxn W) × (run W atxn calls ≡ ok atxn') × Runs W H super ib bb atxn'
  run_lem super ib bb room atxn [] r valid = (atxn, refl, r)
  run_lem super ib bb room atxn (call_alloc_inum ∷ calls) r valid =
      run_lem super ib bb room _ calls (alloc_inum_lem W H super ib bb atxn r) valid
  run_lem super ib bb room atxn (call_free_inum i ∷ calls) r valid =
      run_lem super ib bb room (free_inum W atxn i) calls
        (free_inum_lem W H super ib bb atxn i r valid.0) valid.1
  run_lem super ib bb room atxn (call_alloc_block ∷ calls) r valid =
      let (atxn1, run1, r1) = alloc_block_lem W H super ib bb room atxn r in
      let (atxn2, run2, r2) = run_lem super ib bb room atxn1 calls r1 valid in
      (atxn2, rw run1 run2, r2)
  run_lem super ib bb room atxn (call_free_block b ∷ calls) r valid =
      let (atxn1, run1, r1) = free_block_lem W H super ib bb atxn b r valid.0 in
      let (atxn2, run2, r2) = run_lem super ib bb room atxn1 calls r1 valid.1 in
      (atxn2, rw run1 run2, r2)

  pub start :
      (super : FsSuper) (log : W.Log) (balloc ialloc : W.Alloc)
      → Runs W H super
          (λ n. H.used ialloc n)
          (λ n. H.used balloc n)
          (begin W super log balloc ialloc)
  unfolding begin
  start super log balloc ialloc = record {
    layout = refl;
    inums = record { held = λ n. refl; fresh = λ n h. absurd (cc h) };
    bnums = record { held = λ n. refl; fresh = λ n h. absurd (cc h) };
    free_inums = λ n h. absurd (cc h);
    free_bnums = λ n h. absurd (cc h);
  }

  recorded :
      (super : FsSuper) (log : W.Log) (balloc ialloc : W.Alloc) (calls : List Call)
      (atxn : AllocTxn W)
      → run W (begin W super log balloc ialloc) calls ≡ ok atxn
      → Recorded W H calls (begin W super log balloc ialloc) atxn
  recorded super log balloc ialloc calls atxn e =
      let g = run-Recorded W H (begin W super log balloc ialloc) calls in
      (subst (λ m. Gives (λ atxn'. Recorded W H calls (begin W super log balloc ialloc) atxn') m) e
        g).at

  freed_or :
      (d : Bool) {a a' b c : Bool} → a ≡ a' → b ≡ c → (if a then d else b) ≡ (if a' then d else c)
  freed_or d e e' = rw (e, e') refl

  -- A transaction that allocates and frees inodes and blocks and then aborts leaves both allocators
  -- with the numbers that they had before it began, provided that the inodes that it frees are not 0,
  -- and that free block numbers and the blocks that it frees, other than block 0, lie in the data
  -- region. No call and not the abort panics.
  pub abort_lem :
      (super : FsSuper) (log : W.Log) (balloc ialloc : W.Alloc) (calls : List Call)
      → ((n : ℕ) → n ≢ 0 → H.used balloc n ≡ false → InData W super n)
      → ValidCalls W super calls
      → (atxn' : AllocTxn W) × ((run W (begin W super log balloc ialloc) calls >>= λ atxn.
            post_abort W atxn)
          ≡ ok atxn')
        × ((n : ℕ) → H.used atxn'.balloc n ≡ H.used balloc n)
        × ((n : ℕ) → H.used atxn'.ialloc n ≡ H.used ialloc n)
  unfolding post_abort
  abort_lem super log balloc ialloc calls room valid =
      let (atxn, run1, r) =
        run_lem super (λ n. H.used ialloc n) (λ n. H.used balloc n) room
          (begin W super log balloc ialloc) calls (start super log balloc ialloc) valid in
      let (ialloc', run2, same_i) = give_back W H _ atxn.ialloc atxn.alloc_inums r.inums in
      let (balloc', run3, same_b) = give_back W H _ atxn.balloc atxn.alloc_bnums r.bnums in
      (
        record atxn { ialloc = ialloc'; balloc = balloc' },
        rw run1 (rw (run2, run3) refl),
        same_b,
        same_i,
      )

  -- A transaction that allocates and frees inodes and blocks and then commits ends without a panic,
  -- provided that the inodes that it frees are not 0, and that free block numbers and the blocks that
  -- it frees, other than block 0, lie in the data region. In each allocator a number that one of the
  -- calls frees is free afterwards, where a free of block 0 is none; a number that the allocator hands
  -- out for one of the calls, and none of them frees, is taken; every other number is as before the
  -- transaction began.
  pub commit_lem :
      (super : FsSuper) (log : W.Log) (balloc ialloc : W.Alloc) (calls : List Call)
      → ((n : ℕ) → n ≢ 0 → H.used balloc n ≡ false → InData W super n)
      → ValidCalls W super calls
      → (atxn' : AllocTxn W) × ((run W (begin W super log balloc ialloc) calls >>= λ atxn.
            post_commit W atxn)
          ≡ ok atxn')
        × ((n : ℕ)
            → H.used atxn'.balloc n ≡ (
                if has (freed_bnums calls) n
                then false
                else if has (taken_bnums W calls balloc) n
                then true
                else H.used balloc n))
        × ((n : ℕ)
            → H.used atxn'.ialloc n ≡ (
                if has (freed_inums calls) n
                then false
                else if has (taken_inums W calls ialloc) n
                then true
                else H.used ialloc n))
  unfolding post_commit begin
  commit_lem super log balloc ialloc calls room valid =
      let (atxn, run1, r) =
        run_lem super (λ n. H.used ialloc n) (λ n. H.used balloc n) room
          (begin W super log balloc ialloc) calls (start super log balloc ialloc) valid in
      let w = recorded super log balloc ialloc calls atxn run1 in
      let (ialloc', run2, all_i) = free_nums_lem W H atxn.ialloc atxn.free_inums r.free_inums in
      let (balloc', run3, all_b) = free_nums_lem W H atxn.balloc atxn.free_bnums r.free_bnums in
      (
        record atxn { ialloc = ialloc'; balloc = balloc' },
        rw run1 (rw (run2, run3) refl),
        λ n.
            all_b n
            ∙ freed_or false (w.freed_b n) (r.bnums.held n ∙ freed_or true (w.taken_b n) refl),
        λ n.
            all_i n
            ∙ freed_or false (w.freed_i n) (r.inums.held n ∙ freed_or true (w.taken_i n) refl),
      )
