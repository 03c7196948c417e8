-- ===== src/Simple/Files/Reads.antt =====
-- `Read` of simple/inode.go returns a slice of the file.
use go_nfsd.Prelude.{
  ℕ, ◌+◌, ◌-◌, ◌≤◌, ◌<◌, ◌^◌, ◌≡◌, sym, ap, ◌∙◌, [], true, inl, inr, length, take, drop, ltb, leb,
  leb→le, le→leb, leb→lt, ltb→lt, ltb→le, Bool-cases, sub64, add64, IsU64, ok, arith,
}
use go_nfsd.Prelude.SliceLaws.{take-drop_past, take-nil, take-drop-take, drop-length}
use go_nfsd.External.World.{World, WorldLaws}
use go_nfsd.Nfstypes.{Bytes}
use go_nfsd.Simple.Layout.{block2addr}
use go_nfsd.Simple.Inode.{read, read_loop}
use go_nfsd.Simple.Loops.{read_loop_lem}
use go_nfsd.Simple.Blocks.{data_bnum, Holds}
use go_nfsd.Simple.Files.{inode_of}

module _ (W : World) (H : WorldLaws W) where
  pub length-block : (op : W.Op) (a : W.Addr) → length (W.read_buf op a W.nbitblock) ≡ W.block_size
  length-block op a = simp H.nbitblock_lem (H.length_read op a W.block_size)

  -- The loop over the block reads a slice of the file.
  slice :
      {op : W.Op} {f : Bytes} (i offset n : ℕ)
      → Holds W H op i f
      → offset + n ≤ length f
      → read_loop (W.read_buf op (block2addr W (data_bnum W i)) W.nbitblock) offset n 0 []
        ≡ ok (take n (drop offset f))
  slice {op} {f} i offset n h le =
      let buf = W.read_buf op (block2addr W (data_bnum W i)) W.nbitblock in
      let len : length buf ≡ W.block_size = length-block op _ in
      let whole : take (length f) buf ≡ f = h.content in
      let at : offset + 0 ≡ offset = omega arith in
      read_loop_lem buf offset n 0 [] (omega (arith, h.fits)) (omega (arith, H.block_size_small))
      ∙ ap (λ o. ok (take n (drop o buf))) at
      ∙ ap ok (sym (take-drop-take n offset (length f) buf le))
      ∙ ap (λ g. ok (take n (drop offset g))) whole

  -- Reading a file returns the bytes from `offset` on, `n` at most, and says whether they reach its
  -- end; nothing from the block beyond the file's size.
  pub read_lem :
      {op : W.Op} {f : Bytes} (i offset n : ℕ)
      → Holds W H op i f
      → IsU64 offset
      → read W (inode_of W i f) op offset n
        ≡ ok (take n (drop offset f), leb (length f) (offset + n))
  unfolding read
  read_lem {op} {f} i offset n h ho = elim (Bool-cases (leb (length f) offset)) [
    | inl past ↦
        let end : leb (length f) (offset + n) ≡ true =
          le→leb _ _ (omega (arith, leb→le _ _ past)) in
        let nothing : take n (drop offset f) ≡ [] =
          ap (take n) (drop-length f offset (leb→le _ _ past)) ∙ take-nil n in
        rw (past, end, nothing)
    | inr inside ↦
        let before : offset < length f = leb→lt _ _ inside in
        let left : sub64 (length f) offset ≡ length f - offset = omega (arith, fits) in
        elim (Bool-cases (ltb (length f - offset) n)) [
          | inl short ↦
              let all : add64 offset (length f - offset) ≡ length f = omega (arith, fits) in
              let over : length f ≤ offset + n = omega (arith, ltb→lt _ _ short) in
              let end : leb (length f) (offset + n) ≡ true = le→leb _ _ over in
              let end' : leb (length f) (length f) ≡ true = le→leb _ _ (omega arith) in
              rw (
                inside,
                left,
                short,
                slice i offset (length f - offset) h (omega arith),
                all,
                end,
                end',
                take-drop_past f offset n over,
              )
          | inr full ↦
              let within : offset + n ≤ length f = omega (arith, ltb→le _ _ full) in
              let sum : add64 offset n ≡ offset + n = omega (arith, fits) in
              rw (inside, left, full, slice i offset n h within, sum)
        ]
  ]
    where
      fits : length f ≤ 2 ^ 16
      fits = omega (arith, h.fits, H.block_size_small)
