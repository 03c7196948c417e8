-- ===== src/Nfs/Ending.antt =====
-- nfs/nfs.go: ShutdownNfs and Crash. The threads of the shrinker that are pending run before Shutdown
-- of the shrinker returns; here they run one after the other, in the order of their start.
use go_nfsd.Prelude.{ℕ, true, if◌then◌else◌, List, [], ◌∷◌}
use go_nfsd.External.World.{World}
use go_nfsd.Programs.{◌>>=◌, ◌>>◌, pure, crash, gets, modify}
use go_nfsd.Shrinker.{thread_done}
use go_nfsd.Nfs.Session.{NfsProg, do_shrink, on_op}

-- `shutdown` is the log's Shutdown.
module _ (W : World) (shutdown : W.Log → W.Log) where
  unfoldable pub run_threads : ℕ → List ℕ → NfsProg W (Unit {0})
  run_threads rounds [] = pure tt
  run_threads rounds (inum ∷ left) = do
    done ← do_shrink W rounds inum
    if done then modify (λ s. record s { shrinkst = thread_done s.shrinkst left }) else crash
    run_threads rounds left

  unfoldable pub shutdown_nfs : ℕ → NfsProg W (Unit {0})
  shutdown_nfs rounds = do
    pending ← gets (λ s. s.shrinkst.pending)
    run_threads rounds pending
    on_op W (modify (λ op. record op { fs = record op.fs { txn = shutdown op.fs.txn } }))

  -- The shrinker's Crash sets its flag and waits for the threads too.
  unfoldable pub crash_nfs : ℕ → NfsProg W (Unit {0})
  crash_nfs rounds = do
    modify (λ s. record s { shrinkst = record s.shrinkst { crash = true } })
    pending ← gets (λ s. s.shrinkst.pending)
    run_threads rounds pending
    shutdown_nfs rounds
