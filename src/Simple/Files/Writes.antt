-- ===== src/Simple/Files/Writes.antt =====
-- `Write` of simple/inode.go writes a slice into the file, or changes nothing.
use go_nfsd.Prelude.{
  ℕ, ◌+◌, ◌≤◌, ◌<◌, ◌^◌, ◌≡◌, ◌≢◌, refl, sym, ap, ◌∙◌, ◌⊎◌, true, false, inl, inr, length, take,
  ltb, ◌==◌, ==_iff, ltb→lt, ltb→le, lt→ltb, le→ltb, Bool-cases, add64, ok, ◌>>=◌, splice, write_at,
  arith,
}
use go_nfsd.Prelude.SliceLaws.{
  length-splice, take-splice, write_at-take, length-write_at, length-write_at_grow,
}
use go_nfsd.External.World.{World, WorldLaws}
use go_nfsd.Nfstypes.{Bytes}
use go_nfsd.Simple.Layout.{block2addr}
use go_nfsd.Simple.Inode.{Inode, write, grow}
use go_nfsd.Simple.Loops.{write_loop_lem}
use go_nfsd.Simple.Blocks.{data_bnum, Holds}
use go_nfsd.Simple.Blocks.Frames.{read-set_block, set_block-inode, set_block-block}
use go_nfsd.Simple.Files.{
  inode_of, OthersKept, with_size, write_inode_lem, with_size-Holds, with_size-OthersKept,
}
use go_nfsd.Simple.Files.Reads.{length-block}

module _ (W : World) (H : WorldLaws W) where
  -- The block of `i` as the operation sees it, and the operation after a new content of it.
  block_of : W.Op → ℕ → Bytes
  block_of op i = W.read_buf op (block2addr W (data_bnum W i)) W.nbitblock

  with_block : W.Op → ℕ → Bytes → W.Op
  with_block op i d = W.set_dirty op (block2addr W (data_bnum W i)) W.nbitblock d

  with_block-OthersKept :
      (op : W.Op) (i : ℕ) (d : Bytes)
      → length d ≡ W.block_size
      → OthersKept W H i op (with_block op i d)
  unfolding with_block
  with_block-OthersKept op i d len j f ne h = record {
    fits = h.fits;
    inode = set_block-inode W H op i j d len ∙ h.inode;
    content = rw (set_block-block W H op i j d (λ e. ne (sym e)) len) h.content;
  }

  module _ {op : W.Op} {f : Bytes} (i offset : ℕ) (d : Bytes) (h : Holds W H op i f)
      (start : offset ≤ length f) (room : offset + length d ≤ W.block_size) where
    new_block : Bytes
    new_block = splice (block_of op i) offset d

    length-new_block : length new_block ≡ W.block_size
    unfolding new_block block_of
    length-new_block = length-splice (block_of op i) offset d ∙ length-block W H op _

    op_written : W.Op
    op_written = with_block op i new_block

    -- The first bytes of the new block, as many as the file has after the write.
    used_same : offset + length d ≤ length f → take (length f) new_block ≡ write_at f offset d
    unfolding new_block block_of
    used_same le =
        let len : length (block_of op i) ≡ W.block_size = length-block W H op _ in
        take-splice (block_of op i) offset d (length f) le (omega (arith, h.fits))
        ∙ ap (λ g. write_at g offset d) h.content

    used_more :
        length f ≤ offset + length d → take (offset + length d) new_block ≡ write_at f offset d
    unfolding new_block block_of
    used_more le =
        let s = offset + length d in
        let len : length (block_of op i) ≡ W.block_size = length-block W H op _ in
        take-splice (block_of op i) offset d s (omega arith) (omega arith)
        ∙ write_at-take (block_of op i) offset d s (length f) start le (omega arith)
        ∙ ap (λ g. write_at g offset d) h.content

    no_overflow : W.sum_overflows offset (length d) ≡ false
    no_overflow = elim (Bool-cases (W.sum_overflows offset (length d))) [
      | inl yes_it_does ↦
          absurd (omega (arith, (H.sum_overflows_iff offset (length d)).0 yes_it_does, small))
      | inr e ↦ e
    ]
      where
        small : W.block_size ≤ 2 ^ 16
        small = H.block_size_small

    -- All checks pass, and the loop does not panic: what is left is the growth of the inode.
    write-grow : write W (inode_of W i f) op offset (length d) d ≡ (
        grow W (inode_of W i f) op_written (offset + length d) >>= λ r.
        ok (r.0, r.1, length d, true))
    unfolding write op_written with_block new_block block_of
    write-grow =
        let same : (length d == length d) ≡ true = (==_iff (length d) (length d)).1 refl in
        let sum : add64 offset (length d) ≡ offset + length d = omega (arith, H.block_size_small) in
        let below : ltb W.block_size (offset + length d) ≡ false = le→ltb _ _ room in
        let inside : ltb (length f) offset ≡ false = le→ltb _ _ start in
        let len : length (block_of op i) ≡ W.block_size = length-block W H op _ in
        let zero : offset + 0 ≡ offset = omega arith in
        let loop =
          write_loop_lem (block_of op i) offset d (length d) 0 (omega arith) (omega arith)
            (omega (arith, H.block_size_small)) in
        rw (same, no_overflow, sum, below, inside, loop, zero)

    g : Bytes
    g = write_at f offset d

    read_new : block_of op_written i ≡ new_block
    unfolding op_written with_block block_of
    read_new = read-set_block W H op i new_block length-new_block

    written-OthersKept : OthersKept W H i op op_written
    unfolding op_written
    written-OthersKept = with_block-OthersKept op i new_block length-new_block

    -- What a write has to show, for the growth of the inode that follows it.
    abbrev GrowsTo : Type 0
    GrowsTo =
        (op' : W.Op) × (grow W (inode_of W i f) op_written (offset + length d)
          ≡ ok (inode_of W i g, op'))
        × Holds W H op' i g
        × OthersKept W H i op op'

    grown : length f < offset + length d → GrowsTo
    unfolding grow g
    grown more =
        let len : length g ≡ offset + length d =
          length-write_at_grow f offset d start (omega arith) in
        let content : take (length g) (block_of op_written i) ≡ g =
          ap (take (length g)) read_new
          ∙ ap (λ s. take s new_block) len
          ∙ used_more (omega arith) in
        (
          with_size W H op_written i g,
          rw (lt→ltb _ _ more, ← len, write_inode_lem W H op_written i g),
          with_size-Holds W H op_written i g (omega arith) (unfold block_of in content),
          λ j k ne held.
              with_size-OthersKept W H op_written i g j k ne (written-OthersKept j k ne held),
        )

    stayed : offset + length d ≤ length f → GrowsTo
    unfolding grow g
    stayed less =
        let len : length g ≡ length f = length-write_at f offset d less in
        let content : take (length g) (block_of op_written i) ≡ g =
          ap (take (length g)) read_new ∙ ap (λ s. take s new_block) len ∙ used_same less in
        (
          op_written,
          rw (le→ltb _ _ less, len),
          record {
            fits = omega (arith, h.fits);
            inode = rw len (
                unfold op_written with_block in
                (set_block-inode W H op i i new_block length-new_block ∙ h.inode));
            content = unfold block_of in content;
          },
          written-OthersKept,
        )

    -- The write succeeds; the file is overwritten from `offset` on and grows if need be, and the
    -- other files are kept.
    pub write_done :
        (op' : W.Op) × (write W (inode_of W i f) op offset (length d) d
          ≡ ok (inode_of W i (write_at f offset d), op', length d, true))
        × Holds W H op' i (write_at f offset d)
        × OthersKept W H i op op'
    unfolding g
    write_done =
        let result : GrowsTo = elim (Bool-cases (ltb (length f) (offset + length d))) [
          | inl more ↦ grown (ltb→lt _ _ more)
          | inr less ↦ stayed (ltb→le _ _ less)
        ] in
        let (op', run, held, kept) = result in (op', rw (write-grow, run), held, kept)

    -- The same for a count that is the length of the data.
    pub write_counted :
        (n : ℕ)
        → n ≡ length d
        → (op' : W.Op) × (write W (inode_of W i f) op offset n d
            ≡ ok (inode_of W i (write_at f offset d), op', n, true))
          × Holds W H op' i (write_at f offset d)
          × OthersKept W H i op op'
    write_counted n e = rw e write_done

  -- A write that starts beyond the end, does not fit the block or has a wrong count does nothing.
  pub write_refused :
      (op : W.Op) (ip : Inode) (offset n : ℕ) (d : Bytes)
      → (n ≢ length d) ⊎ (W.block_size < offset + n) ⊎ (ip.size < offset)
      → write W ip op offset n d ≡ ok (ip, op, 0, false)
  unfolding write
  write_refused op ip offset n d (inl bad) = ground arith
  write_refused op ip offset n d (inr (inl bad)) = ground (arith, (H.sum_overflows_iff offset n).1)
  write_refused op ip offset n d (inr (inr bad)) = ground arith
