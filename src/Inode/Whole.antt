-- ===== src/Inode/Whole.antt =====
-- inode/inode.go `Write`: its loop, seen from the start of the file.
use native.Mathlib.Nat.{div-add-mod}
use mathlib.Core.List.{append_assoc}
use go_nfsd.Prelude.{
  ℕ, zero, suc, ◌+◌, ◌*◌, ◌/◌, ◌%◌, ◌≤◌, ◌<◌, ◌^◌, ◌≡◌, refl, sym, ap, ◌∙◌, subst, List, [], ◌∷◌,
  ◌++◌, length, length-append, splice, arith,
}
use go_nfsd.External.World.{World, WorldLaws}
use go_nfsd.Nfstypes.{Bytes}
use go_nfsd.Alloctxn.{AllocTxn}
use go_nfsd.Inode.Layout.{Inode}
use go_nfsd.Inode.Codec.{bytes}
use go_nfsd.Inode.Data.{Writing, write_loop}
use go_nfsd.Inode.Contents.{concat, block_size-pos}
use go_nfsd.Inode.Filled.{length-DirectBlock, Fills, Fills-Same, Distinct}
use go_nfsd.Inode.Writing.{Wrote, write_loop_lem}

concat-append : (pre rest : List Bytes) → concat (pre ++ rest) ≡ concat pre ++ concat rest
concat-append [] rest = refl
concat-append (b ∷ pre) rest =
    ap (λ c. b ++ c) (concat-append pre rest) ∙ sym (append_assoc b (concat pre) (concat rest))

splice_after :
    (a r d : Bytes) (o t : ℕ) → t ≡ length a + o → splice (a ++ r) t d ≡ a ++ splice r o d
unfolding splice
splice_after [] r d o t e = ap (λ i. splice r i d) (omega (arith, e))
splice_after (x ∷ a) r d o zero e = absurd (omega (arith, e))
splice_after (x ∷ a) r d o (suc t) e = ap (◌∷◌ x) (splice_after a r d o t (omega (arith, e)))

module _ (W : World) (H : WorldLaws W) where
  -- The blocks before the block `k`, and the others.
  record Split (ip : Inode) (atxn : AllocTxn W) (k boff : ℕ) (bs : List Bytes) : Type 0 where
    pub pre : List Bytes
    pub rest : List Bytes
    pub whole : bs ≡ pre ++ rest
    pub before : Fills W H ip atxn boff pre
    pub after : Fills W H ip atxn (boff + k) rest
    pub count : length pre ≡ k
    pub size : length (concat pre) ≡ W.block_size * k

  blocks_before :
      (ip : Inode) (atxn : AllocTxn W) (k boff : ℕ) (bs : List Bytes)
      → Fills W H ip atxn boff bs
      → W.block_size * k ≤ length (concat bs)
      → Split ip atxn k boff bs
  blocks_before ip atxn zero boff bs fills le = record {
    pre = [];
    rest = bs;
    whole = refl;
    before = tt;
    after =
        let same : boff ≡ boff + 0 = omega arith in subst (λ i. Fills W H ip atxn i bs) same fills;
    count = refl;
    size = omega arith;
  }
  blocks_before ip atxn (suc k) boff [] fills le =
      absurd (omega (arith, room W.block_size k (block_size-pos W H) le))
    where
      room : (b k : ℕ) → 0 < b → b * suc k ≤ 0 → 1 ≤ 0
      room b k pos le = omega (arith, pos, le)
  blocks_before ip atxn (suc k) boff (b ∷ bs) fills le =
      let len = length-DirectBlock W H fills.0 in
      let s =
        blocks_before ip atxn k (suc boff) bs fills.1
          (omega (arith, le, length-append b (concat bs), len)) in
      let same : suc boff + k ≡ boff + suc k = omega arith in
      record {
        pre = b ∷ s.pre;
        rest = s.rest;
        whole = ap (◌∷◌ b) s.whole;
        before = (fills.0, s.before);
        after = subst (λ i. Fills W H ip atxn i s.rest) same s.after;
        count = ap suc s.count;
        size = omega (arith, length-append b (concat s.pre), len, s.size);
      }

  join_blocks :
      (ip : Inode) (atxn : AllocTxn W) (boff k : ℕ) (pre rest : List Bytes)
      → Fills W H ip atxn boff pre
      → Fills W H ip atxn (boff + k) rest
      → length pre ≡ k
      → Fills W H ip atxn boff (pre ++ rest)
  join_blocks ip atxn boff k [] rest before after e =
      let same : boff + k ≡ boff = omega (arith, e) in
      subst (λ i. Fills W H ip atxn i rest) same after
  join_blocks ip atxn boff zero (b ∷ pre) rest before after e = absurd (omega (arith, e))
  join_blocks ip atxn boff (suc k) (b ∷ pre) rest before after e =
      let same : boff + suc k ≡ suc boff + k = omega arith in
      (
        before.0,
        join_blocks ip atxn (suc boff) k pre rest before.1
            (subst (λ i. Fills W H ip atxn i rest) same after) (omega (arith, e)),
      )

  -- The loop of a write, seen from the start of the file.
  pub write_file_loop :
      (w : Writing W) (offset : ℕ) (bytes : Bytes) (bs : List Bytes)
      → Distinct W H w.ip
      → Fills W H w.ip w.atxn 0 bs
      → offset + length bytes ≤ length (concat bs)
      → offset + length bytes < 2 ^ 64
      → Wrote W H w 0 offset bs bytes
          (write_loop W (length bytes) w (offset / W.block_size) offset (length bytes) bytes)
  write_file_loop w offset bytes bs once fills room small =
      let k = offset / W.block_size in
      let o = offset % W.block_size in
      let at = div-add-mod offset W.block_size in
      let s = blocks_before w.ip w.atxn k 0 bs fills (omega (arith, at, room)) in
      let start : 0 + k ≡ k = omega arith in
      let len : length (concat bs) ≡ length (concat s.pre) + length (concat s.rest) =
        ap (λ c. length (concat c)) s.whole
        ∙ ap length (concat-append s.pre s.rest)
        ∙ length-append (concat s.pre) (concat s.rest) in
      let ih =
        write_loop_lem W H (length bytes) w k offset (length bytes) bytes s.rest once
          (subst (λ i. Fills W H w.ip w.atxn i s.rest) start s.after) refl
          (omega (arith, len, s.size, room, at)) small (omega arith) in
      let before =
        Fills-Same W H w.ip w.atxn ih.op 0 s.pre
          (λ i b le lt direct ne here in_data. ih.others b (λ j after direct' here'.
            absurd
              (omega (arith, once.once i j b direct direct' ne here here', after, lt, s.count))))
          s.before in
      record {
        op = ih.op;
        cnt = ih.cnt;
        blocks = s.pre ++ ih.blocks;
        runs = ih.runs;
        count = ih.count;
        fills =
            join_blocks w.ip (record w.atxn { op = ih.op }) 0 k s.pre ih.blocks before
              (subst (λ i. Fills W H w.ip (record w.atxn { op = ih.op }) i ih.blocks) (sym start)
                ih.fills)
              s.count;
        content =
            concat-append s.pre ih.blocks
            ∙ ap (λ c. concat s.pre ++ c) ih.content
            ∙ sym (
                splice_after (concat s.pre) (concat s.rest) bytes o offset
                  (omega (arith, s.size, at)))
            ∙ ap (λ c. splice c offset bytes)
                (sym (ap concat s.whole ∙ concat-append s.pre s.rest));
        others = λ b h. ih.others b (λ i le. h i (omega arith));
      }
