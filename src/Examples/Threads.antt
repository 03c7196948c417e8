-- ===== src/Examples/Threads.antt =====
-- Two threads of the shrinker end while a caller of Shutdown waits.
use go_nfsd.Prelude.{◌≤◌, ◌≡◌, ◌≢◌, refl, false, [], ◌∷◌, arith}
use go_nfsd.Shrinker.Threads.{
  Threads, Quiet, Run, next, done, finishes, wakes, shutdown, finish, wake, check_threads, signal,
}
use go_nfsd.Shrinker.Shutdown.{shutdown_returns}

abbrev two_threads : Threads
two_threads = record {
  st = record { nthread = 2; crash = false; pending = 3 ∷ 4 ∷ [] };
  sleeping = 0;
  woken = 0;
  returned = 0;
}

abbrev one_left : Threads
one_left = wake (finish (shutdown two_threads) (4 ∷ []))

abbrev none_left : Threads
none_left = wake (finish one_left [])

both_end : Run 4 (shutdown two_threads) none_left
unfolding shutdown finish wake check_threads signal
both_end = next _ _ _ _ (finishes _ [] 3 (4 ∷ []) refl) (
    next _ _ _ _ (wakes _ (omega arith))
      (next _ _ _ _ (finishes _ [] 4 [] refl) (next _ _ _ _ (wakes _ (omega arith)) (done _))))

shutdown_returns_example :
    (4 ≤ 4)
    × (none_left.returned ≢ 0 → none_left.st.pending ≡ [])
    × (((s : Threads) → ¬ Quiet none_left s) → none_left.returned ≡ 1)
shutdown_returns_example =
    shutdown_returns two_threads none_left 4 refl (omega arith) refl refl both_end
