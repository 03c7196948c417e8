-- ===== src/Inode/Writing.antt =====
-- inode/inode.go `Write`, on direct blocks that are there: the loop over the blocks.
use native.Mathlib.Nat.{mod-lt}
use go_nfsd.Prelude.{
  ℕ, zero, suc, ◌+◌, ◌-◌, ◌%◌, ◌≤◌, ◌<◌, ◌^◌, ◌≡◌, ◌≢◌, refl, sym, ap, ◌∙◌, List, [], ◌∷◌, ◌++◌,
  inl, inr, false, length, length-drop, length-append, take, drop, get_elem?, some, Outcome, ok,
  ltb, ◌==◌, lt→ltb, le→ltb, le→leb, ltb→lt, ltb→le, Bool-cases, splice, if◌then◌else◌, add64,
  arith,
}
use go_nfsd.Prelude.SliceLaws.{splice-nil, take_past}
use go_nfsd.External.World.{World, WorldLaws}
use go_nfsd.Nfstypes.{Bytes}
use go_nfsd.Super.{block2addr}
use go_nfsd.Inode.Layout.{ndirect}
use go_nfsd.Inode.Data.{Writing, write_loop, write_block, slice_from}
use go_nfsd.Inode.Direct.{bmap_there}
use go_nfsd.Inode.Contents.{concat, no_null, block_size-pos, block_end}
use go_nfsd.Inode.Rounds.{splice_in_append, splice_over_append, Same, write_block_lem}
use go_nfsd.Inode.Filled.{
  DirectBlock, Fills, Fills-Same, length-DirectBlock, Distinct, other_block, content_kept,
}

module _ (W : World) (H : WorldLaws W) where
  -- What a run of the loop from the block `boff` on, at the offset `o` in it, has done.
  pub record Wrote (w : Writing W) (boff o : ℕ) (bs : List Bytes) (bytes : Bytes)
      (r : Outcome (Writing W)) : Type 0 where
    pub op : W.Op
    pub cnt : ℕ
    pub blocks : List Bytes
    pub runs : r ≡ ok (record w { atxn = record w.atxn { op = op }; cnt = cnt })
    pub count : cnt ≡ w.cnt + length bytes
    pub fills : Fills W H w.ip (record w.atxn { op = op }) boff blocks
    pub content : concat blocks ≡ splice (concat bs) o bytes
    pub others :
        (b : ℕ)
        → ((i : ℕ) → boff ≤ i → i < ndirect → get_elem? w.ip.blks i ≢ some b)
        → Same W H w.atxn.op op b

  write_done :
      (fuel : ℕ) (w : Writing W) (boff off : ℕ) (bytes : Bytes)
      → write_loop W fuel w boff off 0 bytes ≡ ok w
  unfolding write_loop
  write_done zero w boff off bytes = refl
  write_done (suc fuel) w boff off bytes = refl

  -- A round of the loop writes `m` bytes to a block.
  write_round :
      (fuel : ℕ) (w : Writing W) (boff off n m : ℕ) (bytes b : Bytes) (op' : W.Op)
      (d : DirectBlock W H w.ip w.atxn boff b)
      → 0 < n
      → (if ltb n (W.block_size - off % W.block_size) then n else W.block_size - off % W.block_size)
        ≡ m
      → m ≤ length bytes
      → write_block W w.atxn d.blkno (off % W.block_size) m bytes ≡ ok (record w.atxn { op = op' })
      → write_loop W (suc fuel) w boff off n bytes
        ≡ write_loop W fuel
            (record w { atxn = record w.atxn { op = op' }; cnt = w.cnt + m })
            (suc boff)
            (add64 off m)
            (n - m)
            (drop m bytes)
  unfolding write_loop slice_from
  write_round fuel w boff off n m bytes b op' d pos is enough run =
      let some_blk : (d.blkno == W.nullbnum) ≡ false =
        rw H.nullbnum_zero (no_null d.blkno d.there) in
      rw
        (
          lt→ltb 0 n pos,
          bmap_there W H w.ip w.atxn boff d.blkno d.direct d.at d.there,
          some_blk,
          is,
          run,
          le→leb m (length bytes) enough,
        )
        refl

  -- No bytes are left.
  write_nothing :
      (fuel : ℕ) (w : Writing W) (boff off o : ℕ) (bs : List Bytes)
      → Fills W H w.ip w.atxn boff bs
      → Wrote w boff o bs [] (write_loop W fuel w boff off 0 [])
  write_nothing fuel w boff off o bs fills = record {
    op = w.atxn.op;
    cnt = w.cnt;
    blocks = bs;
    runs = write_done fuel w boff off [];
    count = omega arith;
    fills = fills;
    content = sym (splice-nil (concat bs) o);
    others = λ b h a m at pos. refl;
  }

  -- The last round.
  write_last :
      (fuel : ℕ) (w : Writing W) (boff off n : ℕ) (bytes b : Bytes) (bs : List Bytes)
      → Distinct W H w.ip
      → Fills W H w.ip w.atxn boff (b ∷ bs)
      → length bytes ≡ n
      → 0 < n
      → n < W.block_size - off % W.block_size
      → Wrote w boff
          (off % W.block_size)
          (b ∷ bs)
          bytes
          (write_loop W (suc fuel) w boff off n bytes)
  write_last fuel w boff off n bytes b bs once fills len pos lt =
      let o = off % W.block_size in
      let d = fills.0 in
      let lt_o = mod-lt off (block_size-pos W H) in
      let (op', run, here, rest) =
        write_block_lem W H w.atxn d.blkno o n bytes b d.in_data d.content (omega (arith, lt))
          (omega (arith, len)) in
      let is : (if ltb n (W.block_size - o) then n else W.block_size - o) ≡ n =
        rw (lt→ltb n (W.block_size - o) lt) refl in
      let none : n - n ≡ 0 = omega arith in
      let all : take n bytes ≡ bytes = take_past bytes n (omega (arith, len)) in
      let len_b = length-DirectBlock W H d in
      record {
        op = op';
        cnt = w.cnt + n;
        blocks = splice b o bytes ∷ bs;
        runs =
            write_round fuel w boff off n n bytes b op' d pos is (omega (arith, len)) run
            ∙ ap
                (λ k.
                  write_loop W fuel
                    (record w { atxn = record w.atxn { op = op' }; cnt = w.cnt + n }) (suc boff)
                    (add64 off n) k (drop n bytes))
                none
            ∙ write_done fuel _ (suc boff) (add64 off n) (drop n bytes);
        count = omega (arith, len);
        fills = (
          record {
            direct = d.direct;
            blkno = d.blkno;
            at = d.at;
            there = d.there;
            in_data = d.in_data;
            content = here ∙ ap (λ t. splice b o t) all;
          },
          Fills-Same W H w.ip w.atxn op' (suc boff) bs
              (λ i b' le lt small ne at in_data. rest b' (λ e.
                other_block W H w.ip boff i d.blkno once le d.direct small d.there d.at
                  (at ∙ ap some e)))
              fills.1,
        );
        content = sym (splice_in_append o b (concat bs) bytes (omega (arith, len, len_b, lt)));
        others = λ b' h. rest b' (λ e. h boff (omega arith) d.direct (d.at ∙ ap some (sym e)));
      }

  -- A round before others.
  write_more :
      (fuel : ℕ) (w : Writing W) (boff off n m : ℕ) (bytes b : Bytes) (bs : List Bytes) (op' : W.Op)
      (d : DirectBlock W H w.ip w.atxn boff b)
      → Distinct W H w.ip
      → length bytes ≡ n
      → off % W.block_size + m ≡ W.block_size
      → 0 < m
      → m ≤ n
      → add64 off m % W.block_size ≡ 0
      → write_block W w.atxn d.blkno (off % W.block_size) m bytes ≡ ok (record w.atxn { op = op' })
      → W.read_buf op' (block2addr W w.atxn.super d.blkno) W.nbitblock
        ≡ splice b (off % W.block_size) (take m bytes)
      → ((b' : ℕ) → b' ≢ d.blkno → Same W H w.atxn.op op' b')
      → Wrote
          (record w { atxn = record w.atxn { op = op' }; cnt = w.cnt + m })
          (suc boff)
          (add64 off m % W.block_size)
          bs
          (drop m bytes)
          (write_loop W fuel
            (record w { atxn = record w.atxn { op = op' }; cnt = w.cnt + m })
            (suc boff)
            (add64 off m)
            (n - m)
            (drop m bytes))
      → Wrote w boff
          (off % W.block_size)
          (b ∷ bs)
          bytes
          (write_loop W (suc fuel) w boff off n bytes)
  unfolding block2addr
  write_more fuel w boff off n m bytes b bs op' d once len whole pos le at_start run here rest ih =
      let o = off % W.block_size in
      let room : W.block_size - o ≡ m = omega (arith, whole) in
      let is : (if ltb n (W.block_size - o) then n else W.block_size - o) ≡ m =
        rw (room, le→ltb n m le) refl in
      let len_b = length-DirectBlock W H d in
      record {
        op = ih.op;
        cnt = ih.cnt;
        blocks = splice b o (take m bytes) ∷ ih.blocks;
        runs =
            write_round fuel w boff off n m bytes b op' d (omega (arith, pos, le)) is
              (omega (arith, len, le)) run
            ∙ ih.runs;
        count = omega (arith, ih.count, length-drop m bytes, len, le);
        fills = (
          record {
            direct = d.direct;
            blkno = d.blkno;
            at = d.at;
            there = d.there;
            in_data = d.in_data;
            content =
                content_kept W H op' ih.op d.blkno (
                  ih.others d.blkno λ i after small.
                    other_block W H w.ip boff i d.blkno once after d.direct small d.there d.at)
                ∙ here;
          },
          ih.fills,
        );
        content =
            ap (λ c. splice b o (take m bytes) ++ c)
              (ih.content ∙ ap (λ k. splice (concat bs) k (drop m bytes)) at_start)
            ∙ sym (
                splice_over_append o m b (concat bs) bytes (omega (arith, whole, len_b))
                  (omega (arith, len, le)));
        others = λ b' h a k at more.
            ih.others b' (λ i after. h i (omega (arith, after))) a k at more
            ∙ rest b' (λ e. h boff (omega arith) d.direct (d.at ∙ ap some (sym e))) a k at more;
      }

  -- The loop splices the bytes into the blocks, and changes no other block.
  pub write_loop_lem :
      (fuel : ℕ) (w : Writing W) (boff off n : ℕ) (bytes : Bytes) (bs : List Bytes)
      → Distinct W H w.ip
      → Fills W H w.ip w.atxn boff bs
      → length bytes ≡ n
      → off % W.block_size + n ≤ length (concat bs)
      → off + n < 2 ^ 64
      → n ≤ fuel
      → Wrote w boff (off % W.block_size) bs bytes (write_loop W fuel w boff off n bytes)
  write_loop_lem fuel w boff off zero [] bs once fills len room small enough =
      write_nothing fuel w boff off (off % W.block_size) bs fills
  write_loop_lem fuel w boff off zero (x ∷ bytes) bs once fills len room small enough =
      absurd (omega (arith, len))
  write_loop_lem zero w boff off (suc n) bytes bs once fills len room small enough =
      absurd (omega (arith, enough))
  write_loop_lem (suc fuel) w boff off (suc n) bytes [] once fills len room small enough =
      absurd (omega (arith, room))
  write_loop_lem (suc fuel) w boff off (suc n) bytes (b ∷ bs) once fills len room small enough =
      let o = off % W.block_size in
      let m = W.block_size - o in
      elim (Bool-cases (ltb (suc n) m)) [
        | inl last ↦
            write_last fuel w boff off (suc n) bytes b bs once fills len (omega arith)
              (ltb→lt (suc n) m last)
        | inr more ↦
            let d = fills.0 in
            let le = ltb→le (suc n) m more in
            let pos = mod-lt off (block_size-pos W H) in
            let off' : add64 off m ≡ off + m = omega (arith, small, le) in
            let at_start : add64 off m % W.block_size ≡ 0 =
              ap (λ x. x % W.block_size) off' ∙ block_end W H off in
            let len_b = length-DirectBlock W H d in
            let (op', run, here, rest) =
              write_block_lem W H w.atxn d.blkno o m bytes b d.in_data d.content
                (omega (arith, pos)) (omega (arith, len, le)) in
            let fills' =
              Fills-Same W H w.ip w.atxn op' (suc boff) bs
                (λ i b' after lt direct ne at in_data. rest b' (λ e.
                  other_block W H w.ip boff i d.blkno once after d.direct direct d.there d.at
                    (at ∙ ap some e)))
                fills.1 in
            write_more fuel w boff off (suc n) m bytes b bs op' d once len (omega (arith, pos))
              (omega (arith, pos)) le at_start run here rest
              (write_loop_lem fuel (record w { atxn = record w.atxn { op = op' }; cnt = w.cnt + m })
                (suc boff) (add64 off m) (suc n - m) (drop m bytes) bs once fills'
                (omega (arith, length-drop m bytes, len))
                (omega (arith, at_start, room, length-append b (concat bs), len_b, le, pos))
                (omega (arith, off', small, le)) (omega (arith, enough, pos, le)))
      ]
