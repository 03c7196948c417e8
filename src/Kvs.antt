-- ===== src/Kvs.antt =====
-- kvs/kvs.go: a key-value store whose keys are block addresses, with transactions of many puts.
pub mod Puts
use go_nfsd.Prelude.{
  ℕ, List, [], ◌∷◌, Bool, true, false, ltb, leb, ◌||◌, if◌then◌else◌, Outcome, ok, panic, ◌>>=◌,
}
use go_nfsd.External.World.{World}
use go_nfsd.Nfstypes.{Bytes}

pub record KvPair : Type 0 where
  pub key : ℕ
  pub val : Bytes

module _ (W : World) where
  pub record Kvs : Type 0 where
    pub sz : ℕ
    pub log : W.Log

  -- `MkKVS` on the log that `MkLog` made of the disk.
  unfoldable pub mk_kvs : W.Log → ℕ → Kvs
  mk_kvs log sz = record { sz = sz; log = log }

  -- The loop of `MultiPut`.
  unfoldable pub put_loop : ℕ → W.Op → List KvPair → Outcome W.Op
  put_loop sz op [] = ok op
  put_loop sz op (p ∷ pairs) =
      let rest = put_loop sz (W.over_write op (W.mk_addr p.key 0) W.nbitblock p.val) pairs in
      if leb sz p.key || ltb p.key W.logsize then panic else rest

  unfoldable pub multi_put : Kvs → List KvPair → Outcome (Bool × Kvs)
  multi_put kvs pairs = do
    op ← put_loop kvs.sz (W.begin kvs.log) pairs
    let (done, log') = W.commit_wait kvs.log op true
    ok (done, record kvs { log = log' })

  unfoldable pub get : Kvs → ℕ → Outcome (KvPair × Bool × Kvs)
  get kvs key = if ltb kvs.sz key || ltb key W.logsize then panic else (do
    let op = W.begin kvs.log
    let bytes = W.clone_byte_slice (W.read_buf op (W.mk_addr key 0) W.nbitblock)
    let (done, log') = W.commit_wait kvs.log op true
    ok (record { key = key; val = bytes }, done, record kvs { log = log' }))
