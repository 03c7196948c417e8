-- ===== src/Shrinker.antt =====
-- shrinker/shrinker.go: the threads that free the blocks of a file after it was cut. `sync.Mutex` is
-- left out: a call under the mutex is one step.
pub mod Threads
pub mod Shutdown
pub mod Locks
use go_nfsd.Prelude.{
  ℕ, zero, suc, ◌+◌, ◌-◌, ◌%◌, ◌^◌, List, [], ◌∷◌, ◌++◌, Bool, true, false, not, ◌||◌,
  if◌then◌else◌,
}
use go_nfsd.External.World.{World}
use go_nfsd.Programs.{
  Result, returns, Prog, and_then, ◌>>=◌, ◌>>◌, pure, out_of_rounds, if_nil, gets, within,
}
use go_nfsd.Inode.Sizes.{shrink}
use go_nfsd.Fstxn.State.{FsState, FsTxn, FsProg, begin_again, on_inode}
use go_nfsd.Fstxn.Inodes.{get_inode_inum_free}
use go_nfsd.Fstxn.Commit.{commit}

-- `pending` are the threads that were started and have not run to their end: the inodes they shrink.
pub record ShrinkerSt : Type 0 where
  pub nthread : ℕ
  pub crash : Bool
  pub pending : List ℕ

unfoldable pub mk_shrinker_st : ShrinkerSt
mk_shrinker_st = record { nthread = 0; crash = false; pending = [] }

-- The end of a thread: the threads left.
abbrev pub thread_done : ShrinkerSt → List ℕ → ShrinkerSt
thread_done st left = record st { nthread = (st.nthread + 2 ^ 32 - 1) % 2 ^ 32; pending = left }

-- `nthread` is a uint32.
unfoldable pub start_shrinker : ShrinkerSt → ℕ → ShrinkerSt
start_shrinker st inum = record st {
  nthread = (st.nthread + 1) % 2 ^ 32;
  pending = st.pending ++ (inum ∷ []);
}

module _ (W : World) where
  -- One transaction of the loop: whether more is left, and whether the commit succeeded.
  unfoldable pub shrink_txn : ℕ → FsProg W (Bool × Bool)
  shrink_txn inum = do
    begin_again W
    ip ← get_inode_inum_free W inum
    more ← on_inode W ip (λ i atxn. shrink W i atxn)
    done ← commit W
    pure (more, done)

  -- `crashed` is the flag, which a crash may set between the rounds: the flag of each round.
  unfoldable pub do_shrink : ℕ → Bool → ℕ → FsProg W Bool
  do_shrink zero crashed inum = out_of_rounds
  do_shrink (suc rounds) crashed inum = do
    (more, done) ← shrink_txn inum
    if not done || crashed || not more then pure done else do_shrink rounds crashed inum
