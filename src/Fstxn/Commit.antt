-- ===== src/Fstxn/Commit.antt =====
-- fstxn/commit.go: the ends of a transaction.
use go_nfsd.Prelude.{Bool, true, false, ok, panic}
use go_nfsd.External.World.{World}
use go_nfsd.Programs.{returns, ◌>>=◌, ◌>>◌, pure}
use go_nfsd.Alloctxn as Alloctxn
use go_nfsd.Fstxn.State.{FsProg, on_atxn}
use go_nfsd.Fstxn.Inodes.{release_inodes}

module _ (W : World) where
  unfoldable pub pre_commit : FsProg W (Unit {0})
  pre_commit = on_atxn W (λ atxn. ok (tt, Alloctxn.pre_commit W atxn))

  unfoldable pub post_commit : FsProg W (Unit {0})
  post_commit = do
    release_inodes W
    on_atxn W (λ atxn. elim (Alloctxn.post_commit W atxn) [ ok a ↦ ok (tt, a) | panic ↦ panic ])

  -- `op.Atxn.Op.CommitWait(wait)`: the operation holds the log.
  unfoldable pub commit_op : Bool → FsProg W Bool
  commit_op wait op =
      let (done, log) = W.commit_wait op.fs.txn op.atxn.op wait in
      returns (done, record op { fs = record op.fs { txn = log } })

  unfoldable pub commit_wait : Bool → FsProg W Bool
  commit_wait wait = do pre_commit; done ← commit_op wait; post_commit; pure done

  unfoldable pub commit : FsProg W Bool
  commit = commit_wait true

  unfoldable pub commit_data : FsProg W Bool
  commit_data = commit

  unfoldable pub commit_unstable : FsProg W Bool
  commit_unstable = commit_wait false

  unfoldable pub flush_log : FsProg W Bool
  flush_log op =
      let (done, log) = W.flush op.fs.txn in
      returns (done, record op { fs = record op.fs { txn = log } })

  unfoldable pub commit_fh : FsProg W Bool
  commit_fh = do pre_commit; done ← flush_log; post_commit; pure done

  unfoldable pub abort : FsProg W Bool
  abort = do
    release_inodes W
    on_atxn W (λ atxn. elim (Alloctxn.post_abort W atxn) [ ok a ↦ ok (tt, a) | panic ↦ panic ])
    pure true
