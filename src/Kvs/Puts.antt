-- ===== src/Kvs/Puts.antt =====
-- kvs/kvs.go against a map from keys to blocks: a transaction of puts is all or nothing.
use native.Mathlib.Decide.{ℕ_discrete}
use go_nfsd.Prelude.{
  ℕ, ◌≤◌, ◌<◌, ◌≡◌, ◌≢◌, refl, sym, ap, ◌∙◌, inl, inr, List, [], ◌∷◌, Bool, true, false, Bool-cases,
  length, ◌==◌, ==_iff, ltb, leb, le→ltb, le→leb, if◌then◌else◌, ok, panic, arith,
}
use go_nfsd.External.World.{World, WorldLaws}
use go_nfsd.Nfstypes.{Bytes}
use go_nfsd.Kvs.{KvPair, Kvs, put_loop, multi_put, get}

-- The value of each key after the pairs are put one after the other.
abbrev pub puts : (ℕ → Bytes) → List KvPair → ℕ → Bytes
puts F [] = F
puts F (p ∷ pairs) = puts (λ k. if k == p.key then p.val else F k) pairs

module _ (W : World) (H : WorldLaws W) where
  -- Keys in the range of the store, and values of one block.
  abbrev pub InRange : ℕ → List KvPair → Type 0
  InRange sz [] = Unit
  InRange sz (p ∷ pairs) =
      ((p.key < sz) × (W.logsize ≤ p.key) × (length p.val ≡ W.block_size)) × InRange sz pairs

  -- What an operation sees under a key, and what the store holds.
  abbrev pub seen : W.Op → ℕ → Bytes
  seen op k = W.read_buf op (W.mk_addr k 0) W.nbitblock

  abbrev pub value : Kvs W → ℕ → Bytes
  value kvs = seen (W.begin kvs.log)

  block_pos : 0 < W.block_size
  block_pos = grind (arith, H.inodeblk_lem, H.inodesz_lem, H.inodeblk_large)

  over_self :
      (op : W.Op) (a : W.Addr) (v : Bytes)
      → length v ≡ W.block_size
      → W.read_buf (W.over_write op a W.nbitblock v) a W.nbitblock ≡ v
  over_self op a v len = simp H.nbitblock_lem (H.over_write_self op a W.block_size v len)

  over_other :
      (op : W.Op) (k j : ℕ) (v : Bytes)
      → length v ≡ W.block_size
      → k ≢ j
      → W.read_buf (W.over_write op (W.mk_addr k 0) W.nbitblock v) (W.mk_addr j 0) W.nbitblock
        ≡ W.read_buf op (W.mk_addr j 0) W.nbitblock
  over_other op k j v len ne = simp H.nbitblock_lem (
      H.over_write_apart op (W.mk_addr k 0) W.block_size v (W.mk_addr j 0) W.block_size len
        block_pos block_pos (inl apart))
    where
      apart : W.blkno (W.mk_addr k 0) ≢ W.blkno (W.mk_addr j 0)
      apart = omega (arith, H.blkno-mk_addr k 0, H.blkno-mk_addr j 0)

  seen-over_write :
      (op : W.Op) (k j : ℕ) (v : Bytes)
      → length v ≡ W.block_size
      → seen (W.over_write op (W.mk_addr k 0) W.nbitblock v) j ≡ (if j == k then v else seen op j)
  seen-over_write op k j v len = elim (ℕ_discrete j k) [
    | yes same ↦ rw same (rw ((==_iff k k).1 refl) (over_self op (W.mk_addr k 0) v len))
    | no other ↦
        let test : (j == k) ≡ false = ground arith in
        rw test (over_other op k j v len (λ e. other (sym e)))
  ]

  put_loop_lem :
      (sz : ℕ) (op : W.Op) (pairs : List KvPair) (F : ℕ → Bytes)
      → InRange sz pairs
      → ((k : ℕ) → seen op k ≡ F k)
      → (op' : W.Op) × (put_loop W sz op pairs ≡ ok op') × ((k : ℕ) → seen op' k ≡ puts F pairs k)
  unfolding put_loop
  put_loop_lem sz op [] F h same = (op, refl, same)
  put_loop_lem sz op (p ∷ pairs) F h same =
      let low : ltb p.key W.logsize ≡ false = le→ltb _ _ h.0.1 in
      let high : leb sz p.key ≡ false = ground arith in
      let (op', run, after) =
        put_loop_lem sz (W.over_write op (W.mk_addr p.key 0) W.nbitblock p.val) pairs
          (λ k. if k == p.key then p.val else F k) h.1
          (λ k.
            seen-over_write op p.key k p.val h.0.2
            ∙ ap (λ v. if k == p.key then p.val else v) (same k)) in
      (op', rw (low, high) run, after)

  -- A read through a new operation after a commit.
  committed :
      (log : W.Log) (op : W.Op) (F G : ℕ → Bytes)
      → ((k : ℕ) → seen (W.begin log) k ≡ F k)
      → ((k : ℕ) → seen op k ≡ G k)
      → (k : ℕ)
      → seen (W.begin (W.commit_wait log op true).1) k
        ≡ (if (W.commit_wait log op true).0 then G k else F k)
  committed log op F G before after k = elim (Bool-cases (W.commit_wait log op true).0) [
    | inl done ↦ rw done (commit_done done)
    | inr failed ↦ rw failed (commit_failed failed)
  ]
    where
      commit_done :
          (W.commit_wait log op true).0 ≡ true
          → seen (W.begin (W.commit_wait log op true).1) k ≡ G k
      commit_done done =
          let same : W.read_buf (W.begin (W.commit_wait log op true).1) (W.mk_addr k 0) W.nbitblock
              ≡ W.read_buf op (W.mk_addr k 0) W.nbitblock =
            simp H.nbitblock_lem (H.commit_done log op true (W.mk_addr k 0) W.block_size done) in
          same ∙ after k

      commit_failed :
          (W.commit_wait log op true).0 ≡ false
          → seen (W.begin (W.commit_wait log op true).1) k ≡ F k
      commit_failed failed =
          let same : W.read_buf (W.begin (W.commit_wait log op true).1) (W.mk_addr k 0) W.nbitblock
              ≡ W.read_buf (W.begin log) (W.mk_addr k 0) W.nbitblock =
            simp H.nbitblock_lem
              (H.commit_failed log op true (W.mk_addr k 0) W.block_size failed) in
          same ∙ before k

  -- MultiPut of keys in range with values of one block does not panic. It reports whether its commit
  -- succeeded: if so every key holds the value that the pairs give it, the last one of several, or
  -- its old one; if not every key holds its old value.
  pub multi_put_lem :
      (kvs : Kvs W) (pairs : List KvPair)
      → InRange kvs.sz pairs
      → (op : W.Op) × (multi_put W kvs pairs
          ≡ ok (
            (W.commit_wait kvs.log op true).0,
            record kvs { log = (W.commit_wait kvs.log op true).1 },
          ))
        × ((k : ℕ)
            → value (record kvs { log = (W.commit_wait kvs.log op true).1 }) k ≡ (
                if (W.commit_wait kvs.log op true).0
                then puts (value kvs) pairs k
                else value kvs k))
  unfolding multi_put
  multi_put_lem kvs pairs h =
      let (op, run, after) =
        put_loop_lem kvs.sz (W.begin kvs.log) pairs (value kvs) h (λ k. refl) in
      (op, rw run, committed kvs.log op (value kvs) (puts (value kvs) pairs) (λ k. refl) after)

  -- Get of a key from the log's size up to and including `sz` returns the value of the key, and no
  -- value changes.
  pub get_lem :
      (kvs : Kvs W) (k : ℕ)
      → W.logsize ≤ k
      → k ≤ kvs.sz
      → (kvs' : Kvs W) × (done : Bool) × (get W kvs k
          ≡ ok (record { key = k; val = value kvs k }, done, kvs'))
        × ((j : ℕ) → value kvs' j ≡ value kvs j)
  unfolding get
  get_lem kvs k low high =
      let op = W.begin kvs.log in
      let log' = (W.commit_wait kvs.log op true).1 in
      let high' : ltb kvs.sz k ≡ false = le→ltb _ _ high in
      let low' : ltb k W.logsize ≡ false = le→ltb _ _ low in
      (
        record kvs { log = log' },
        (W.commit_wait kvs.log op true).0,
        rw (high', low', H.clone_byte_slice_lem (value kvs k)),
        λ j. committed kvs.log op (value kvs) (value kvs) (λ i. refl) (λ i. refl) j ∙ if_same _ _,
      )
    where
      if_same : (b : Bool) (v : Bytes) → (if b then v else v) ≡ v
      if_same true v = refl
      if_same false v = refl

  -- The two bounds differ by one: MultiPut panics at the key `sz` itself, and Get accepts it.
  pub bounds_differ :
      (kvs : Kvs W) (v : Bytes) (pairs : List KvPair)
      → W.logsize ≤ kvs.sz
      → (multi_put W kvs (record { key = kvs.sz; val = v } ∷ pairs) ≡ panic)
        × (get W kvs kvs.sz ≢ panic)
  unfolding multi_put put_loop
  bounds_differ kvs v pairs low =
      let at : leb kvs.sz kvs.sz ≡ true = le→leb _ _ (omega arith) in
      let (kvs', done, run, _) = get_lem kvs kvs.sz low (omega arith) in
      (rw at, λ bad. cc (run, bad))
