-- ===== src/Inode/Fuel.antt =====
-- The loops of inode/inode.go `Read` and `Write` and of inode/shrink.go `Shrink` end before their fuel.
use native.Mathlib.Nat.{mod-lt}
use go_nfsd.Prelude.{
  ℕ, zero, suc, ◌+◌, ◌-◌, ◌%◌, ◌≤◌, ◌<◌, ◌≡◌, refl, inl, inr, true, Bool-cases, ltb, le→ltb, ltb→lt,
  ◌==◌, if◌then◌else◌, ok, Outcome-cases, add64, arith,
}
use go_nfsd.External.World.{World, WorldLaws}
use go_nfsd.Nfstypes.{Bytes}
use go_nfsd.Alloctxn.{AllocTxn, read_block}
use go_nfsd.Inode.Layout.{Inode, write_inode}
use go_nfsd.Inode.Blocks.{bmap}
use go_nfsd.Inode.Data.{read_loop, read_bytes, Writing, write_loop, write_block, slice_from}

module _ (W : World) (H : WorldLaws W) where
  block_pos : 0 < W.block_size
  block_pos = grind (arith, H.inodeblk_lem, H.inodesz_lem, H.inodeblk_large)

  -- A round of the read takes a byte or more.
  some_bytes :
      (off n count : ℕ) → n < count → 0 < W.min (W.block_size - off % W.block_size) (count - n)
  some_bytes off n count lt =
      ground
        (arith, H.min_lem (W.block_size - off % W.block_size) (count - n), mod-lt off block_pos)

  -- From `count - n` on, which is what `Read` gives it, more fuel does not change the loop of `Read`.
  pub read_loop_fuel :
      (fuel fuel' : ℕ) (ip : Inode) (atxn : AllocTxn W) (boff off n count : ℕ) (bytes : Bytes)
      → count - n ≤ fuel
      → count - n ≤ fuel'
      → read_loop W fuel ip atxn boff off n count bytes
        ≡ read_loop W fuel' ip atxn boff off n count bytes
  unfolding read_loop
  read_loop_fuel zero zero ip atxn boff off n count bytes h h' = refl
  read_loop_fuel zero (suc fuel') ip atxn boff off n count bytes h h' =
      rw (le→ltb n count (omega arith)) refl
  read_loop_fuel (suc fuel) zero ip atxn boff off n count bytes h h' =
      rw (le→ltb n count (omega arith)) refl
  read_loop_fuel (suc fuel) (suc fuel') ip atxn boff off n count bytes h h' =
      elim (Bool-cases (ltb n count)) [
        | inr over ↦ rw over refl
        | inl more ↦ rw more (elim (Outcome-cases (bmap W ip atxn boff)) [
          | inl bad ↦ rw bad refl
          | inr ((blkno, alloc, ip1, atxn1), mapped) ↦
              rw mapped (elim (Bool-cases (blkno == W.nullbnum)) [
                | inl none ↦ rw none refl
                | inr some_blk ↦
                    rw some_blk
                      (elim (Outcome-cases (if alloc then write_inode W ip1 atxn1 else ok atxn1)) [
                        | inl bad ↦ rw bad refl
                        | inr (atxn2, wrote) ↦
                            rw wrote (elim (Outcome-cases (read_block W atxn2 blkno)) [
                              | inl bad ↦ rw bad refl
                              | inr (buf, got) ↦
                                  rw got
                                    (elim (Outcome-cases (
                                      read_bytes buf (off % W.block_size)
                                        (W.min (W.block_size - off % W.block_size) (count - n))
                                        bytes)) [
                                          | inl bad ↦ rw bad refl
                                          | inr (bytes', copied) ↦
                                              let left : count
                                                    - (n
                                                        + W.min (W.block_size - off % W.block_size)
                                                            (count - n))
                                                  ≤ fuel =
                                                omega (
                                                  arith,
                                                  some_bytes off n count (ltb→lt n count more),
                                                ) in
                                              let left' : count
                                                    - (n
                                                        + W.min (W.block_size - off % W.block_size)
                                                            (count - n))
                                                  ≤ fuel' =
                                                omega (
                                                  arith,
                                                  some_bytes off n count (ltb→lt n count more),
                                                ) in
                                              rw copied (
                                                read_loop_fuel fuel fuel' ip1 atxn2 (suc boff)
                                                  (add64 off (
                                                    W.min (W.block_size - off % W.block_size)
                                                      (count - n)))
                                                  (n
                                                    + W.min (W.block_size - off % W.block_size)
                                                        (count - n))
                                                  count bytes' left left')
                                        ])
                            ])
                      ])
              ])
        ])
      ]

  -- From `n` on, which is what `Write` gives it, more fuel does not change the loop of `Write`.
  pub write_loop_fuel :
      (fuel fuel' : ℕ) (w : Writing W) (boff off n : ℕ) (bytes : Bytes)
      → n ≤ fuel
      → n ≤ fuel'
      → write_loop W fuel w boff off n bytes ≡ write_loop W fuel' w boff off n bytes
  unfolding write_loop
  write_loop_fuel zero zero w boff off n bytes h h' = refl
  write_loop_fuel zero (suc fuel') w boff off n bytes h h' = rw (le→ltb 0 n (omega arith)) refl
  write_loop_fuel (suc fuel) zero w boff off n bytes h h' = rw (le→ltb 0 n (omega arith)) refl
  write_loop_fuel (suc fuel) (suc fuel') w boff off n bytes h h' = elim (Bool-cases (ltb 0 n)) [
    | inr over ↦ rw over refl
    | inl more ↦ rw more (elim (Outcome-cases (bmap W w.ip w.atxn boff)) [
      | inl bad ↦ rw bad refl
      | inr ((blkno, new, ip1, atxn1), mapped) ↦
          rw mapped (elim (Bool-cases (blkno == W.nullbnum)) [
            | inl none ↦ rw none refl
            | inr some_blk ↦
                rw some_blk
                  (elim (Outcome-cases
                    (write_block W atxn1 blkno (off % W.block_size) (part off n) bytes)) [
                      | inl bad ↦ rw bad refl
                      | inr (atxn2, wrote) ↦
                          rw wrote (elim (Outcome-cases (slice_from bytes (part off n))) [
                            | inl bad ↦ rw bad refl
                            | inr (rest, cut) ↦ rw cut (
                                write_loop_fuel fuel fuel'
                                  (record w {
                                    ip = ip1;
                                    atxn = atxn2;
                                    cnt = w.cnt + part off n;
                                    alloc = if new then true else w.alloc;
                                  })
                                  (suc boff) (add64 off (part off n)) (n - part off n) rest
                                  (less_left off n fuel (ltb→lt 0 n more) h)
                                  (less_left off n fuel' (ltb→lt 0 n more) h'))
                          ])
                    ])
          ])
    ])
  ]
    where
      part : ℕ → ℕ → ℕ
      part off n =
          if ltb n (W.block_size - off % W.block_size) then n else W.block_size - off % W.block_size

      less_left : (off n f : ℕ) → 0 < n → n ≤ suc f → n - part off n ≤ f
      less_left off n f pos h = ground (arith, mod-lt off block_pos)
