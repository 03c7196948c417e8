-- ===== src/External/Lockmap.antt =====
-- go-journal/lockmap: a lock for each number. The code runs one request at a time here, so an
-- `Acquire` that returns has taken the lock.
use go_nfsd.Prelude.{◌==◌, if◌then◌else◌, ℕ, ◌≡◌}

pub record Lockmap : Type 1 where
  pub LockMap : Type 0
  pub mk_lock_map : LockMap
  pub acquire : LockMap → ℕ → LockMap
  pub release : LockMap → ℕ → LockMap

pub record LockmapLaws (L : Lockmap) : Type 0 where
  pub release-acquire : (l : L.LockMap) (n : ℕ) → L.release (L.acquire l n) n ≡ l
  pub holders : L.LockMap → ℕ → ℕ
  pub holders-mk_lock_map : (n : ℕ) → holders L.mk_lock_map n ≡ 0
  pub holders-acquire :
      (l : L.LockMap) (n m : ℕ)
      → holders l n ≡ 0
      → holders (L.acquire l n) m ≡ (if n == m then 1 else holders l m)
  pub holders-release :
      (l : L.LockMap) (n m : ℕ)
      → holders l n ≡ 1
      → holders (L.release l n) m ≡ (if n == m then 0 else holders l m)
