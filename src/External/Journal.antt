-- ===== src/External/Journal.antt =====
-- The transactions of go-journal: packages jrnl, obj, buf and addr. A buffer that `ReadBuf` returns
-- is the value of its object; an edit of its data and `SetDirty` is `set_dirty` with the new data.
-- Sizes and offsets of objects are in bits. `bnum_get` and `bnum_put` are `BnumGet` and `BnumPut` on
-- the bytes of a buffer, and panic beyond its end.
use go_nfsd.Prelude.{ℕ, ◌+◌, ◌*◌, ◌≤◌, ◌<◌, ◌≡◌, ◌≢◌, ◌⊎◌, Bool, true, false, Outcome, List, length}

pub record Journal : Type 1 where
  pub Addr : Type 0
  pub mk_addr : ℕ → ℕ → Addr
  pub mk_bit_addr : ℕ → ℕ → Addr
  pub blkno : Addr → ℕ
  pub off : Addr → ℕ
  pub Log : Type 0
  pub Op : Type 0
  pub begin : Log → Op
  pub read_buf : Op → Addr → ℕ → List ℕ
  pub over_write : Op → Addr → ℕ → List ℕ → Op
  pub set_dirty : Op → Addr → ℕ → List ℕ → Op
  pub n_dirty : Op → ℕ
  pub bnum_get : List ℕ → ℕ → Outcome ℕ
  pub bnum_put : List ℕ → ℕ → ℕ → Outcome (List ℕ)
  pub commit_wait : Log → Op → Bool → Bool × Log
  pub flush : Log → Bool × Log
  pub log_blocks : ℕ
  pub log_bytes : ℕ

-- Two objects that share no bit.
abbrev pub Apart : (J : Journal) → J.Addr → ℕ → J.Addr → ℕ → Type 0
Apart J a n b m = (J.blkno a ≢ J.blkno b) ⊎ (J.off a + n ≤ J.off b) ⊎ (J.off b + m ≤ J.off a)

-- An operation sees its own writes, and a write changes no object apart from its own. A commit
-- that succeeds makes the operation's view the state; one that fails leaves the state.
pub record JournalLaws (J : Journal) : Type 0 where
  pub blkno-mk_addr : (b o : ℕ) → J.blkno (J.mk_addr b o) ≡ b
  pub off-mk_addr : (b o : ℕ) → J.off (J.mk_addr b o) ≡ o
  pub length_read : (op : J.Op) (a : J.Addr) (n : ℕ) → length (J.read_buf op a (n * 8)) ≡ n
  pub over_write_self :
      (op : J.Op) (a : J.Addr) (n : ℕ) (d : List ℕ)
      → length d ≡ n
      → J.read_buf (J.over_write op a (n * 8) d) a (n * 8) ≡ d
  pub over_write_apart :
      (op : J.Op) (a : J.Addr) (n : ℕ) (d : List ℕ) (b : J.Addr) (m : ℕ)
      → length d ≡ n
      → 0 < n
      → 0 < m
      → Apart J a (n * 8) b (m * 8)
      → J.read_buf (J.over_write op a (n * 8) d) b (m * 8) ≡ J.read_buf op b (m * 8)
  pub set_dirty_self :
      (op : J.Op) (a : J.Addr) (n : ℕ) (d : List ℕ)
      → length d ≡ n
      → J.read_buf (J.set_dirty op a (n * 8) d) a (n * 8) ≡ d
  pub set_dirty_apart :
      (op : J.Op) (a : J.Addr) (n : ℕ) (d : List ℕ) (b : J.Addr) (m : ℕ)
      → length d ≡ n
      → 0 < n
      → 0 < m
      → Apart J a (n * 8) b (m * 8)
      → J.read_buf (J.set_dirty op a (n * 8) d) b (m * 8) ≡ J.read_buf op b (m * 8)
  pub commit_done :
      (log : J.Log) (op : J.Op) (wait : Bool) (a : J.Addr) (n : ℕ)
      → (J.commit_wait log op wait).0 ≡ true
      → J.read_buf (J.begin (J.commit_wait log op wait).1) a (n * 8) ≡ J.read_buf op a (n * 8)
  pub commit_failed :
      (log : J.Log) (op : J.Op) (wait : Bool) (a : J.Addr) (n : ℕ)
      → (J.commit_wait log op wait).0 ≡ false
      → J.read_buf (J.begin (J.commit_wait log op wait).1) a (n * 8)
        ≡ J.read_buf (J.begin log) a (n * 8)
