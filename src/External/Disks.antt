-- ===== src/External/Disks.antt =====
-- The disk of goose's primitives with what go-journal does on it before the log runs: buffers written
-- and loaded past the log, recovery, the log, and an allocator made of a bitmap.
use go_nfsd.Prelude.{ℕ, List}
use go_nfsd.External.World.{World}

pub record Disks (W : World) : Type 1 where
  pub Disk : Type 0
  pub size : Disk → ℕ
  pub read : Disk → ℕ → List ℕ
  pub write : Disk → ℕ → List ℕ → Disk
  pub write_direct : Disk → W.Addr → ℕ → List ℕ → Disk
  pub load : W.Addr → ℕ → List ℕ → List ℕ
  pub recover : Disk → Disk
  pub log_on : Disk → W.Log
  pub mk_alloc : List ℕ → W.Alloc
