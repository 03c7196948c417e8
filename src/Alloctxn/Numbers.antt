-- ===== src/Alloctxn/Numbers.antt =====
-- alloctxn/alloctxn.go: which numbers a sequence of calls frees and takes, computed from the calls and
-- the allocator alone, and that a transaction records exactly these.
use go_nfsd.Prelude.{
  ℕ, ◌≡◌, refl, ◌∙◌, Bool, true, false, Bool-cases, inl, inr, List, [], ◌∷◌, ◌++◌, ◌==◌, ◌||◌,
  if◌then◌else◌, Outcome, ok, Gives, Gives-ok, Gives-panic, Gives-then, Outcome-cases, panic,
}
use go_nfsd.External.World.{World, WorldLaws}
use go_nfsd.Alloctxn.{
  AllocTxn, alloc_inum, free_inum, alloc_block, free_block, zero_block, read_block,
  assert_valid_block,
}
use go_nfsd.Alloctxn.Reserved.{has, has-append}
use go_nfsd.Alloctxn.Calls.{
  Call, call_alloc_inum, call_free_inum, call_alloc_block, call_free_block, step, run,
}

-- The inodes that the calls free.
unfoldable pub freed_inums : List Call → List ℕ
freed_inums [] = []
freed_inums (call_alloc_inum ∷ calls) = freed_inums calls
freed_inums (call_free_inum inum ∷ calls) = inum ∷ freed_inums calls
freed_inums (call_alloc_block ∷ calls) = freed_inums calls
freed_inums (call_free_block blkno ∷ calls) = freed_inums calls

-- The blocks that the calls free; block 0 is none.
unfoldable pub freed_bnums : List Call → List ℕ
freed_bnums [] = []
freed_bnums (call_alloc_inum ∷ calls) = freed_bnums calls
freed_bnums (call_free_inum inum ∷ calls) = freed_bnums calls
freed_bnums (call_alloc_block ∷ calls) = freed_bnums calls
freed_bnums (call_free_block blkno ∷ calls) =
    let rest = freed_bnums calls in if blkno == 0 then rest else blkno ∷ rest

module _ (W : World) where
  -- The numbers that an allocator hands out for the calls, one for each call that allocates an inode;
  -- 0 is none.
  unfoldable pub taken_inums : List Call → W.Alloc → List ℕ
  taken_inums [] a = []
  taken_inums (call_alloc_inum ∷ calls) a =
      let (n, a') = W.alloc_num a in
      let rest = taken_inums calls a' in if n == 0 then rest else n ∷ rest
  taken_inums (call_free_inum inum ∷ calls) a = taken_inums calls a
  taken_inums (call_alloc_block ∷ calls) a = taken_inums calls a
  taken_inums (call_free_block blkno ∷ calls) a = taken_inums calls a

  -- The same for blocks.
  unfoldable pub taken_bnums : List Call → W.Alloc → List ℕ
  taken_bnums [] a = []
  taken_bnums (call_alloc_inum ∷ calls) a = taken_bnums calls a
  taken_bnums (call_free_inum inum ∷ calls) a = taken_bnums calls a
  taken_bnums (call_alloc_block ∷ calls) a =
      let (n, a') = W.alloc_num a in
      let rest = taken_bnums calls a' in if n == 0 then rest else n ∷ rest
  taken_bnums (call_free_block blkno ∷ calls) a = taken_bnums calls a

-- A number at the end of one list or at the start of the next.
move :
    (l rest : List ℕ) (x n : ℕ)
    → (has (l ++ (x ∷ [])) n || has rest n) ≡ (has l n || has (x ∷ rest) n)
move l rest x n = rw (has-append l x n) (swap (n == x) (has l n) (has rest n))
  where
    swap : (a b c : Bool) → ((if a then true else b) || c) ≡ (b || (if a then true else c))
    swap true true c = refl
    swap true false c = refl
    swap false true c = refl
    swap false false c = refl

Gives-map :
    {A : Type 0} {P Q : A → Type 0} (m : Outcome A) → Gives P m → ((a : A) → P a → Q a) → Gives Q m
Gives-map (ok a) g k = Gives-ok a (k a g.at)
Gives-map panic g k = Gives-panic

module _ (W : World) (H : WorldLaws W) where
  -- What the lists of a transaction and the calls to come name does not change with the transaction's
  -- next call.
  record Stepped (c : Call) (atxn atxn' : AllocTxn W) : Type 0 where
    frees_inums :
        (calls : List Call) (n : ℕ)
        → (has atxn'.free_inums n || has (freed_inums calls) n)
          ≡ (has atxn.free_inums n || has (freed_inums (c ∷ calls)) n)
    frees_bnums :
        (calls : List Call) (n : ℕ)
        → (has atxn'.free_bnums n || has (freed_bnums calls) n)
          ≡ (has atxn.free_bnums n || has (freed_bnums (c ∷ calls)) n)
    takes_inums :
        (calls : List Call) (n : ℕ)
        → (has atxn'.alloc_inums n || has (taken_inums W calls atxn'.ialloc) n)
          ≡ (has atxn.alloc_inums n || has (taken_inums W (c ∷ calls) atxn.ialloc) n)
    takes_bnums :
        (calls : List Call) (n : ℕ)
        → (has atxn'.alloc_bnums n || has (taken_bnums W calls atxn'.balloc) n)
          ≡ (has atxn.alloc_bnums n || has (taken_bnums W (c ∷ calls) atxn.balloc) n)

  alloc_inum-Stepped : (atxn : AllocTxn W) → Stepped call_alloc_inum atxn (alloc_inum W atxn).1
  unfolding alloc_inum freed_inums freed_bnums taken_inums taken_bnums
  alloc_inum-Stepped atxn = elim (Bool-cases ((W.alloc_num atxn.ialloc).0 == 0)) [
    | inl none ↦
        rw (H.nullinum_zero, none)
          (record {
            frees_inums = λ calls n. refl;
            frees_bnums = λ calls n. refl;
            takes_inums = λ calls n. rw none refl;
            takes_bnums = λ calls n. refl;
          })
    | inr some_num ↦
        rw (H.nullinum_zero, some_num)
          (record {
            frees_inums = λ calls n. refl;
            frees_bnums = λ calls n. refl;
            takes_inums =
                λ calls n. rw some_num (move atxn.alloc_inums _ (W.alloc_num atxn.ialloc).0 n);
            takes_bnums = λ calls n. refl;
          })
  ]

  free_inum-Stepped :
      (atxn : AllocTxn W) (inum : ℕ) → Stepped (call_free_inum inum) atxn (free_inum W atxn inum)
  unfolding free_inum freed_inums freed_bnums taken_inums taken_bnums
  free_inum-Stepped atxn inum = record {
    frees_inums = λ calls n. move atxn.free_inums _ inum n;
    frees_bnums = λ calls n. refl;
    takes_inums = λ calls n. refl;
    takes_bnums = λ calls n. refl;
  }

  alloc_block-Stepped :
      (atxn : AllocTxn W)
      → Gives (λ atxn'. Stepped call_alloc_block atxn atxn') (step W atxn call_alloc_block)
  unfolding alloc_block freed_inums freed_bnums taken_inums taken_bnums
  alloc_block-Stepped atxn =
      elim (Outcome-cases (
        assert_valid_block W (record atxn { balloc = (W.alloc_num atxn.balloc).1 })
          (W.alloc_num atxn.balloc).0)) [
            | inl bad ↦ rw bad Gives-panic
            | inr (_, good) ↦ elim (Bool-cases ((W.alloc_num atxn.balloc).0 == 0)) [
              | inl none ↦
                  rw (good, H.nullbnum_zero, none)
                    (Gives-ok _ (record {
                      frees_inums = λ calls n. refl;
                      frees_bnums = λ calls n. refl;
                      takes_inums = λ calls n. refl;
                      takes_bnums = λ calls n. rw none refl;
                    }))
              | inr some_num ↦
                  rw (good, H.nullbnum_zero, some_num)
                    (Gives-ok _ (record {
                      frees_inums = λ calls n. refl;
                      frees_bnums = λ calls n. refl;
                      takes_inums = λ calls n. refl;
                      takes_bnums = λ calls n.
                          rw some_num (move atxn.alloc_bnums _ (W.alloc_num atxn.balloc).0 n);
                    }))
            ]
          ]

  free_block-Stepped :
      (atxn : AllocTxn W) (blkno : ℕ)
      → Gives (λ atxn'. Stepped (call_free_block blkno) atxn atxn') (free_block W atxn blkno)
  unfolding free_block zero_block read_block freed_inums freed_bnums taken_inums taken_bnums
  free_block-Stepped atxn blkno = elim (Outcome-cases (assert_valid_block W atxn blkno)) [
    | inl bad ↦ rw bad Gives-panic
    | inr (_, good) ↦ elim (Bool-cases (blkno == 0)) [
      | inl none ↦
          rw (good, none)
            (Gives-ok _ (record {
              frees_inums = λ calls n. refl;
              frees_bnums = λ calls n. rw none refl;
              takes_inums = λ calls n. refl;
              takes_bnums = λ calls n. refl;
            }))
      | inr some_blk ↦
          rw (good, some_blk)
            (Gives-ok _ (record {
              frees_inums = λ calls n. refl;
              frees_bnums = λ calls n. rw some_blk (move atxn.free_bnums _ blkno n);
              takes_inums = λ calls n. refl;
              takes_bnums = λ calls n. refl;
            }))
    ]
  ]

  step-Stepped :
      (atxn : AllocTxn W) (c : Call) → Gives (λ atxn'. Stepped c atxn atxn') (step W atxn c)
  step-Stepped atxn call_alloc_inum = Gives-ok _ (alloc_inum-Stepped atxn)
  step-Stepped atxn (call_free_inum inum) = Gives-ok _ (free_inum-Stepped atxn inum)
  step-Stepped atxn call_alloc_block = alloc_block-Stepped atxn
  step-Stepped atxn (call_free_block blkno) = free_block-Stepped atxn blkno

  -- The transaction's lists hold what they held before the calls, and what the calls name.
  pub record Recorded (calls : List Call) (atxn atxn' : AllocTxn W) : Type 0 where
    pub freed_i :
        (n : ℕ) → has atxn'.free_inums n ≡ (has atxn.free_inums n || has (freed_inums calls) n)
    pub freed_b :
        (n : ℕ) → has atxn'.free_bnums n ≡ (has atxn.free_bnums n || has (freed_bnums calls) n)
    pub taken_i :
        (n : ℕ)
        → has atxn'.alloc_inums n
          ≡ (has atxn.alloc_inums n || has (taken_inums W calls atxn.ialloc) n)
    pub taken_b :
        (n : ℕ)
        → has atxn'.alloc_bnums n
          ≡ (has atxn.alloc_bnums n || has (taken_bnums W calls atxn.balloc) n)

  or_false : (b : Bool) → b ≡ (b || false)
  or_false true = refl
  or_false false = refl

  pub run-Recorded :
      (atxn : AllocTxn W) (calls : List Call)
      → Gives (λ atxn'. Recorded calls atxn atxn') (run W atxn calls)
  unfolding freed_inums freed_bnums taken_inums taken_bnums
  run-Recorded atxn [] = Gives-ok _ (record {
    freed_i = λ n. or_false _;
    freed_b = λ n. or_false _;
    taken_i = λ n. or_false _;
    taken_b = λ n. or_false _;
  })
  run-Recorded atxn (c ∷ calls) = Gives-then (step W atxn c) _ (step-Stepped atxn c) λ atxn1 s.
      Gives-map (run W atxn1 calls) (run-Recorded atxn1 calls) λ atxn' r. record {
        freed_i = λ n. r.freed_i n ∙ s.frees_inums calls n;
        freed_b = λ n. r.freed_b n ∙ s.frees_bnums calls n;
        taken_i = λ n. r.taken_i n ∙ s.takes_inums calls n;
        taken_b = λ n. r.taken_b n ∙ s.takes_bnums calls n;
      }
