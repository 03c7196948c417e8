-- ===== src/Inode/Rounds.antt =====
-- inode/inode.go `Write`, on direct blocks that are there: a write to one block.
use go_nfsd.Prelude.{
  ℕ, zero, suc, ◌+◌, ◌*◌, ◌≤◌, ◌<◌, ◌≡◌, ◌≢◌, refl, sym, ap, ◌∙◌, [], ◌∷◌, ◌++◌, inl, inr, true,
  length, length-set, length-take, set, take, drop, get_elem?-some, ok, ◌==◌, ◌&&◌, le→leb,
  Bool-cases, splice, overlay, arith,
}
use go_nfsd.Prelude.SliceLaws.{drop-eq-cons, splice-set, splice-nil, length-splice}
use go_nfsd.External.Journal.{Apart}
use go_nfsd.External.World.{World, WorldLaws}
use go_nfsd.Nfstypes.{Bytes}
use go_nfsd.Super.{block2addr}
use go_nfsd.Alloctxn.{AllocTxn, read_block}
use go_nfsd.Alloctxn.Calls.{InData, assert_valid}
use go_nfsd.Inode.Data.{write_block, write_bytes, slice_to}
use go_nfsd.Inode.Direct.{store_at, index_at}
use go_nfsd.Inode.Contents.{length-block, block_size-pos}

all_of : (o m n : ℕ) → (o == 0 && m == n) ≡ true → (o ≡ 0) × (m ≡ n)
all_of o m n h = ground arith

pub splice_in_append :
    (o : ℕ) (b r d : Bytes) → o + length d ≤ length b → splice (b ++ r) o d ≡ splice b o d ++ r
unfolding splice overlay
splice_in_append zero b r [] h = refl
splice_in_append zero [] r (y ∷ d) h = absurd (omega arith)
splice_in_append zero (x ∷ b) r (y ∷ d) h = ap (◌∷◌ y) (splice_in_append zero b r d (omega arith))
splice_in_append (suc o) [] r d h = absurd (omega arith)
splice_in_append (suc o) (x ∷ b) r d h = ap (◌∷◌ x) (splice_in_append o b r d (omega arith))

pub splice_over_append :
    (o m : ℕ) (b r d : Bytes)
    → o + m ≡ length b
    → m ≤ length d
    → splice (b ++ r) o d ≡ splice b o (take m d) ++ splice r 0 (drop m d)
unfolding splice overlay
splice_over_append zero zero [] r d h k = refl
splice_over_append zero zero (x ∷ b) r d h k = absurd (omega arith)
splice_over_append zero (suc m) [] r d h k = absurd (omega arith)
splice_over_append zero (suc m) (x ∷ b) r [] h k = absurd (omega arith)
splice_over_append zero (suc m) (x ∷ b) r (y ∷ d) h k =
    ap (◌∷◌ y) (splice_over_append zero m b r d (omega arith) (omega arith))
splice_over_append (suc o) m [] r d h k = absurd (omega arith)
splice_over_append (suc o) m (x ∷ b) r d h k =
    ap (◌∷◌ x) (splice_over_append o m b r d (omega arith) k)

overlay_whole : (d xs : Bytes) → length d ≡ length xs → overlay d xs ≡ d
unfolding overlay
overlay_whole [] [] h = refl
overlay_whole [] (x ∷ xs) h = absurd (omega arith)
overlay_whole (y ∷ d) [] h = absurd (omega arith)
overlay_whole (y ∷ d) (x ∷ xs) h = ap (◌∷◌ y) (overlay_whole d xs (omega arith))

splice_whole : (d xs : Bytes) → length d ≡ length xs → splice xs 0 d ≡ d
unfolding splice
splice_whole d xs h = overlay_whole d xs h

-- The copy loop of `Write` splices its bytes into the buffer.
write_bytes_lem :
    (buf : Bytes) (byteoff : ℕ) (bytes : Bytes) (b n i : ℕ)
    → b + n ≤ length bytes
    → byteoff + b ≡ i
    → i + n ≤ length buf
    → write_bytes buf byteoff bytes b n ≡ ok (splice buf i (take n (drop b bytes)))
unfolding write_bytes
write_bytes_lem buf byteoff bytes b zero i h at k = rw (splice-nil buf i)
write_bytes_lem buf byteoff bytes b (suc n) i h at k =
    let (x, here) = get_elem?-some bytes b (omega arith) in
    let rest =
      write_bytes_lem (set buf i x) byteoff bytes (suc b) n (suc i) (omega arith)
        (omega (arith, at)) (omega (arith, length-set buf i x)) in
    rw
      (
        index_at bytes b x here,
        at,
        store_at buf i x (omega arith),
        rest,
        drop-eq-cons bytes b x here,
      )
      (ap ok (splice-set buf i x (take n (drop (suc b) bytes)) (omega arith)))

module _ (W : World) (H : WorldLaws W) where
  -- What lies in the block `b` is the same for both operations.
  abbrev pub Same : W.Op → W.Op → ℕ → Type 0
  Same op op' b =
      (a : W.Addr) (m : ℕ)
      → W.blkno a ≡ b
      → 0 < m
      → W.read_buf op' a (m * 8) ≡ W.read_buf op a (m * 8)

  other_number :
      (blkno b m : ℕ) (a : W.Addr)
      → W.blkno a ≡ b
      → b ≢ blkno
      → Apart W.journal (W.mk_addr blkno 0) (W.block_size * 8) a (m * 8)
  other_number blkno b m a at ne = inl (λ e. ne (sym at ∙ sym e ∙ H.blkno-mk_addr blkno 0))

  over_write_block :
      (op : W.Op) (blkno : ℕ) (d : Bytes)
      → length d ≡ W.block_size
      → (W.read_buf
            (W.over_write op (W.mk_addr blkno 0) W.nbitblock d)
            (W.mk_addr blkno 0)
            W.nbitblock
          ≡ d)
        × ((b : ℕ) → b ≢ blkno → Same op (W.over_write op (W.mk_addr blkno 0) W.nbitblock d) b)
  over_write_block op blkno d len = rw H.nbitblock_lem (
    H.over_write_self op (W.mk_addr blkno 0) W.block_size d len,
    λ b ne a m at pos.
        H.over_write_apart op (W.mk_addr blkno 0) W.block_size d a m len (block_size-pos W H) pos
          (other_number blkno b m a at ne),
  )

  set_dirty_block :
      (op : W.Op) (blkno : ℕ) (d : Bytes)
      → length d ≡ W.block_size
      → (W.read_buf
            (W.set_dirty op (W.mk_addr blkno 0) W.nbitblock d)
            (W.mk_addr blkno 0)
            W.nbitblock
          ≡ d)
        × ((b : ℕ) → b ≢ blkno → Same op (W.set_dirty op (W.mk_addr blkno 0) W.nbitblock d) b)
  set_dirty_block op blkno d len = rw H.nbitblock_lem (
    H.set_dirty_self op (W.mk_addr blkno 0) W.block_size d len,
    λ b ne a m at pos.
        H.set_dirty_apart op (W.mk_addr blkno 0) W.block_size d a m len (block_size-pos W H) pos
          (other_number blkno b m a at ne),
  )

  -- A write to a block splices the bytes into it, and changes no other block.
  pub write_block_lem :
      (atxn : AllocTxn W) (blkno o m : ℕ) (bytes b : Bytes)
      → InData W atxn.super blkno
      → W.read_buf atxn.op (block2addr W atxn.super blkno) W.nbitblock ≡ b
      → o + m ≤ W.block_size
      → m ≤ length bytes
      → (op' : W.Op) × (write_block W atxn blkno o m bytes ≡ ok (record atxn { op = op' }))
        × (W.read_buf op' (block2addr W atxn.super blkno) W.nbitblock ≡ splice b o (take m bytes))
        × ((b' : ℕ) → b' ≢ blkno → Same atxn.op op' b')
  unfolding write_block slice_to read_block block2addr
  write_block_lem atxn blkno o m bytes b in_data content room enough =
      let len : length b ≡ W.block_size = ap length (sym content) ∙ length-block W H _ _ in
      let d = splice b o (take m bytes) in
      let len_d : length d ≡ W.block_size = length-splice b o (take m bytes) ∙ len in
      elim (Bool-cases (o == 0 && m == W.block_size)) [
        | inl whole ↦
            let len_t : length (take m bytes) ≡ length b =
              omega (arith, length-take m bytes, len, all_of o m W.block_size whole, enough) in
            let at_start : o ≡ 0 = (all_of o m W.block_size whole).0 in
            let same : take m bytes ≡ d =
              sym (splice_whole (take m bytes) b len_t)
              ∙ ap (λ i. splice b i (take m bytes)) (sym at_start) in
            let w = over_write_block atxn.op blkno (take m bytes) (len_t ∙ len) in
            (
              W.over_write atxn.op (W.mk_addr blkno 0) W.nbitblock (take m bytes),
              rw (whole, le→leb m (length bytes) enough) refl,
              w.0 ∙ same,
              w.1,
            )
        | inr part ↦
            let w = set_dirty_block atxn.op blkno d len_d in
            let copy =
              write_bytes_lem b o bytes 0 m o (omega (arith, enough)) (omega arith)
                (omega (arith, room, len)) in
            (
              W.set_dirty atxn.op (W.mk_addr blkno 0) W.nbitblock d,
              rw (part, assert_valid W H atxn blkno (inr in_data), content, copy) refl,
              w.0,
              w.1,
            )
      ]
