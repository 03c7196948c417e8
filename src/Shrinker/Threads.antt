-- ===== src/Shrinker/Threads.antt =====
-- shrinker/shrinker.go: the shrinker's threads and the callers of Shutdown and Crash, as steps. A
-- caller that finds a thread running sleeps on `condShut`; the end of a thread wakes one sleeper.
use go_nfsd.Prelude.{ℕ, suc, ◌-◌, ◌<◌, ◌≡◌, List, ◌∷◌, ◌++◌, true, ltb, if◌then◌else◌}
use go_nfsd.Shrinker.{ShrinkerSt, start_shrinker, thread_done}

-- The shrinker with the callers of Shutdown and Crash that sleep, that were woken, and that returned.
pub record Threads : Type 0 where
  pub st : ShrinkerSt
  pub sleeping : ℕ
  pub woken : ℕ
  pub returned : ℕ

-- The test of `for shrinker.nthread > 0`, by a caller that is not asleep.
unfoldable pub check_threads : Threads → Threads
check_threads s =
    if ltb 0 s.st.nthread
    then record s { sleeping = suc s.sleeping }
    else record s { returned = suc s.returned }

-- The calls of Shutdown and of Crash.
unfoldable pub shutdown : Threads → Threads
unfolding check_threads
shutdown s = check_threads s

unfoldable pub crash : Threads → Threads
unfolding check_threads
crash s = check_threads (record s { st = record s.st { crash = true } })

-- A woken caller tests again.
unfoldable pub wake : Threads → Threads
unfolding check_threads
wake s = check_threads (record s { woken = s.woken - 1 })

-- `condShut.Signal()`
unfoldable pub signal : Threads → Threads
signal s =
    if ltb 0 s.sleeping then record s { sleeping = s.sleeping - 1; woken = suc s.woken } else s

-- The end of a thread's `shrinker`, after DoShrink succeeded: the threads left.
abbrev pub one_less : Threads → List ℕ → Threads
one_less s left = record s { st = thread_done s.st left }

unfoldable pub finish : Threads → List ℕ → Threads
unfolding signal
finish s left = signal (one_less s left)

-- What goes on without a new call: a thread ends, or a woken caller runs.
pub data Quiet : Threads → Threads → Type 0 where
  finishes :
      (s : Threads) (before : List ℕ) (inum : ℕ) (after : List ℕ)
      → s.st.pending ≡ before ++ (inum ∷ after)
      → Quiet s (finish s (before ++ after))
  wakes : (s : Threads) → 0 < s.woken → Quiet s (wake s)

pub data Step : Threads → Threads → Type 0 where
  starts : (s : Threads) (inum : ℕ) → Step s (record s { st = start_shrinker s.st inum })
  shuts : (s : Threads) → Step s (shutdown s)
  crashes : (s : Threads) → Step s (crash s)
  quiet : (s s' : Threads) → Quiet s s' → Step s s'

-- Steps without a new call, counted.
pub data Run : ℕ → Threads → Threads → Type 0 where
  done : (s : Threads) → Run 0 s s
  next : (n : ℕ) (s s' s'' : Threads) → Quiet s s' → Run n s' s'' → Run (suc n) s s''
