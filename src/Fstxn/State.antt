-- ===== src/Fstxn/State.antt =====
-- fstxn/fsstate.go and the transaction of fstxn/fstxn.go. An `*inode.Inode` is a pointer into `objects`,
-- which the cache's slots and the transaction share. The allocators are shared too: what the part of
-- alloctxn/ does to them is written back at once.
use go_nfsd.Prelude.{ℕ, List, [], ◌∷◌, ◌==◌, if◌then◌else◌, Option, none, some, Outcome, ok, panic}
use go_nfsd.External.World.{World}
use go_nfsd.Programs.{returns, panics, Prog}
use go_nfsd.Super.{FsSuper}
use go_nfsd.Cache.{Cache, mk_cache}
use go_nfsd.Alloctxn as Alloctxn
use go_nfsd.Alloctxn.{AllocTxn}
use go_nfsd.Inode.Layout.{Inode, new_inode}

abbrev pub icachesz : ℕ
icachesz = 100

-- `op.inodes`: the inodes that the transaction has locked, by number.
abbrev pub InodeMap : Type 0
InodeMap = List (ℕ × ℕ)

unfoldable pub find_inode : InodeMap → ℕ → Option ℕ
find_inode [] inum = none
find_inode ((i, p) ∷ m) inum = let rest = find_inode m inum in if i == inum then some p else rest

unfoldable pub delete_inode : InodeMap → ℕ → InodeMap
delete_inode [] inum = []
delete_inode ((i, p) ∷ m) inum =
    let rest = delete_inode m inum in if i == inum then rest else (i, p) ∷ rest

module _ (W : World) where
  pub record FsState : Type 0 where
    pub super : FsSuper
    pub txn : W.Log
    pub icache : Cache ℕ
    pub lockmap : W.LockMap
    pub balloc : W.Alloc
    pub ialloc : W.Alloc
    pub objects : ℕ → Inode
    pub next_object : ℕ

  -- `MkFsState`, with the allocators that `MkAlloc` makes of the bitmaps on the disk.
  unfoldable pub mk_fs_state : FsSuper → W.Log → W.Alloc → W.Alloc → FsState
  unfolding mk_cache
  mk_fs_state super log balloc ialloc = record {
    super = super;
    txn = log;
    icache = mk_cache ℕ icachesz;
    lockmap = W.mk_lock_map;
    balloc = balloc;
    ialloc = ialloc;
    objects = λ p. new_inode;
    next_object = 0;
  }

  pub record FsTxn : Type 0 where
    pub fs : FsState
    pub atxn : AllocTxn W
    pub inodes : InodeMap

  unfoldable pub begin : FsState → FsTxn
  begin fsstate = record {
    fs = fsstate;
    atxn = Alloctxn.begin W fsstate.super fsstate.txn fsstate.balloc fsstate.ialloc;
    inodes = [];
  }

  abbrev pub FsProg : Type 0 → Type 0
  FsProg A = Prog FsTxn A

  -- `op = fstxn.Begin(op.Fs)`
  unfoldable pub begin_again : FsProg (Unit {0})
  unfolding begin
  begin_again op = returns (tt, begin op.fs)

  -- The transaction after its part of alloctxn/ has changed.
  unfoldable pub with_atxn : FsTxn → AllocTxn W → FsTxn
  with_atxn op atxn = record op {
    atxn = atxn;
    fs = record op.fs { balloc = atxn.balloc; ialloc = atxn.ialloc };
  }

  -- `*p = ip`
  unfoldable pub set_object : FsTxn → ℕ → Inode → FsTxn
  set_object op p ip = record op {
    fs = record op.fs { objects = λ q. if q == p then ip else op.fs.objects q };
  }

  -- A call of a method of the transaction's part.
  unfoldable pub on_atxn : {A : Type 0} → (AllocTxn W → Outcome (A × AllocTxn W)) → FsProg A
  unfolding with_atxn
  on_atxn f op = elim (f op.atxn) [ ok r ↦ returns (r.0, with_atxn op r.1) | panic ↦ panics ]

  -- A call of a method of the inode at `p`.
  unfoldable pub on_inode :
      {A : Type 0} → ℕ → (Inode → AllocTxn W → Outcome (A × Inode × AllocTxn W)) → FsProg A
  unfolding with_atxn set_object
  on_inode p f op = elim (f (op.fs.objects p) op.atxn) [
    | ok r ↦ returns (r.0, set_object (with_atxn op r.2) p r.1)
    | panic ↦ panics
  ]
