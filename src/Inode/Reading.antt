-- ===== src/Inode/Reading.antt =====
-- inode/inode.go `Read`: a slice of the file, over as many blocks as it takes.
use native.Mathlib.Nat.{mod-lt, div-add-mod}
use mathlib.Core.List.{append_assoc}
use go_nfsd.Prelude.{
  ℕ, zero, suc, ◌+◌, ◌-◌, ◌*◌, ◌/◌, ◌%◌, ◌≤◌, ◌<◌, ◌^◌, ◌≡◌, refl, sym, ap, ◌∙◌, subst, List, [],
  ◌∷◌, ◌++◌, inl, inr, false, length, length-append, length-drop, length-take, take, drop, ok, leb,
  ◌==◌, lt→ltb, le→ltb, leb→le, leb→lt, Bool-cases, if◌then◌else◌, add64, arith,
}
use go_nfsd.Prelude.SliceLaws.{
  take-drop_past, take-nil, take-drop-take, drop-length, drop-nil, drop-drop,
}
use go_nfsd.External.World.{World, WorldLaws}
use go_nfsd.Nfstypes.{Bytes}
use go_nfsd.Alloctxn.{AllocTxn, read_block}
use go_nfsd.Alloctxn.Calls.{assert_valid}
use go_nfsd.Inode.Layout.{Inode}
use go_nfsd.Inode.Data.{read, read_loop}
use go_nfsd.Inode.Contents.{
  no_null, concat, take_in_append, take_over_append, drop_over_append, read_bytes_lem,
  block_size-pos, length-Block, Block, Stores, block_end,
}

module _ (W : World) (H : WorldLaws W) where
  read_block_lem :
      {ip : Inode} {atxn : AllocTxn W} {boff : ℕ} {b : Bytes} (h : Block W H ip atxn boff b)
      → read_block W atxn h.blkno ≡ ok b
  unfolding read_block
  read_block_lem {ip} {atxn} h =
      rw (assert_valid W H atxn h.blkno (inr h.in_data)) (ap ok h.content)

  -- A round of the loop appends a slice of a block.
  read_round :
      (fuel : ℕ) (ip : Inode) (atxn : AllocTxn W) (boff off n count m : ℕ) (acc b : Bytes)
      → Block W H ip atxn boff b
      → n < count
      → W.min (W.block_size - off % W.block_size) (count - n) ≡ m
      → read_loop W (suc fuel) ip atxn boff off n count acc
        ≡ read_loop W fuel ip atxn
            (suc boff)
            (add64 off m)
            (n + m)
            count
            (acc ++ take m (drop (off % W.block_size) b))
  unfolding read_loop
  read_round fuel ip atxn boff off n count m acc b h lt e =
      let some_blk : (h.blkno == W.nullbnum) ≡ false =
        rw H.nullbnum_zero (no_null h.blkno h.there) in
      let inside : off % W.block_size + m ≤ length b = omega (
        arith,
        length-Block W H h,
        H.min_lem (W.block_size - off % W.block_size) (count - n),
        mod-lt off (block_size-pos W H),
        e,
      ) in
      rw (
        lt→ltb n count lt,
        h.mapped,
        some_blk,
        read_block_lem h,
        e,
        read_bytes_lem b (off % W.block_size) m acc inside,
      )

  read_done :
      (fuel : ℕ) (ip : Inode) (atxn : AllocTxn W) (boff off n count : ℕ) (acc : Bytes)
      → count ≤ n
      → read_loop W fuel ip atxn boff off n count acc ≡ ok (acc, ip, atxn)
  unfolding read_loop
  read_done zero ip atxn boff off n count acc le = refl
  read_done (suc fuel) ip atxn boff off n count acc le = rw (le→ltb n count le) refl

  -- The last round takes what is left.
  read_last :
      (fuel : ℕ) (ip : Inode) (atxn : AllocTxn W) (boff off n count : ℕ) (acc b r : Bytes)
      → Block W H ip atxn boff b
      → n < count
      → count - n ≤ W.block_size - off % W.block_size
      → read_loop W (suc fuel) ip atxn boff off n count acc
        ≡ ok (acc ++ take (count - n) (drop (off % W.block_size) (b ++ r)), ip, atxn)
  read_last fuel ip atxn boff off n count acc b r h lt le =
      let o = off % W.block_size in
      let m = count - n in
      let all : W.min (W.block_size - o) m ≡ m = (H.min_lem (W.block_size - o) m).3 le in
      let inside : o + m ≤ length b =
        omega (arith, length-Block W H h, mod-lt off (block_size-pos W H), le) in
      read_round fuel ip atxn boff off n count m acc b h lt all
      ∙ read_done fuel ip atxn (suc boff) (add64 off m) (n + m) count _ (omega arith)
      ∙ ap (λ d. ok (acc ++ d, ip, atxn)) (sym (take_in_append o m b r inside))

  -- The loop appends a slice of the blocks.
  read_loop_lem :
      (fuel : ℕ) (ip : Inode) (atxn : AllocTxn W) (boff off n count : ℕ) (acc : Bytes)
      (bs : List Bytes)
      → Stores W H ip atxn boff bs
      → off % W.block_size + (count - n) ≤ length (concat bs)
      → off + (count - n) < 2 ^ 64
      → count - n ≤ fuel
      → n < count
      → read_loop W fuel ip atxn boff off n count acc
        ≡ ok (acc ++ take (count - n) (drop (off % W.block_size) (concat bs)), ip, atxn)
  read_loop_lem zero ip atxn boff off n count acc bs st room small enough lt =
      absurd (omega (arith, enough, lt))
  read_loop_lem (suc fuel) ip atxn boff off n count acc [] st room small enough lt =
      absurd (omega (arith, room, lt))
  read_loop_lem (suc fuel) ip atxn boff off n count acc (b ∷ bs) st room small enough lt =
      let o = off % W.block_size in
      let m = W.block_size - o in
      elim (Bool-cases (leb (count - n) m)) [
        | inl last ↦
            read_last fuel ip atxn boff off n count acc b (concat bs) st.0 lt (leb→le _ _ last)
        | inr more ↦
            let lt_m = leb→lt (count - n) m more in
            let pos = mod-lt off (block_size-pos W H) in
            let some_of : W.min m (count - n) ≡ m =
              (H.min_lem m (count - n)).2 (omega (arith, lt_m)) in
            let off' : add64 off m ≡ off + m = omega (arith, small, lt_m) in
            let at_start : add64 off m % W.block_size ≡ 0 =
              ap (λ x. x % W.block_size) off' ∙ block_end W H off in
            let len = length-Block W H st.0 in
            let left : count - n ≡ m + (count - (n + m)) = omega (arith, lt_m) in
            let rest =
              read_loop_lem fuel ip atxn (suc boff) (add64 off m) (n + m) count
                (acc ++ take m (drop o b)) bs st.1
                (omega (arith, at_start, room, length-append b (concat bs), len, left, pos))
                (omega (arith, off', small, left)) (omega (arith, enough, left, pos))
                (omega (arith, lt_m)) in
            read_round fuel ip atxn boff off n count m acc b st.0 lt some_of
            ∙ rest
            ∙ ap
                (λ i. ok (
                  (acc ++ take m (drop o b)) ++ take (count - (n + m)) (drop i (concat bs)),
                  ip,
                  atxn,
                ))
                at_start
            ∙ ap (λ d. ok (d, ip, atxn))
                (append_assoc acc (take m (drop o b)) (take (count - (n + m)) (concat bs)))
            ∙ ap (λ d. ok (acc ++ d, ip, atxn))
                (sym (
                  take_over_append o m (count - (n + m)) (count - n) b (concat bs)
                    (omega (arith, len, pos)) left))
      ]

  -- The blocks of a file from another block on.
  skip_blocks :
      (ip : Inode) (atxn : AllocTxn W) (k boff t : ℕ) (bs : List Bytes)
      → Stores W H ip atxn boff bs
      → t ≡ boff + k
      → (rest : List Bytes) × Stores W H ip atxn t rest
        × (concat rest ≡ drop (W.block_size * k) (concat bs))
  skip_blocks ip atxn zero boff t bs st e =
      let here : boff ≡ t = omega (arith, e) in
      let none : 0 ≡ W.block_size * 0 = omega arith in
      (bs, subst (λ i. Stores W H ip atxn i bs) here st, ap (λ n. drop n (concat bs)) none)
  skip_blocks ip atxn (suc k) boff t [] st e = ([], tt, sym (drop-nil (W.block_size * suc k)))
  skip_blocks ip atxn (suc k) boff t (b ∷ bs) st e =
      let (rest, st', all) = skip_blocks ip atxn k (suc boff) t bs st.1 (omega arith) in
      (
        rest,
        st',
        all
            ∙ sym (
                drop_over_append (W.block_size * k) W.block_size (W.block_size * suc k) b
                  (concat bs) (length-Block W H st.0) (omega arith)),
      )

  -- The loop, from the block of `offset` on.
  read_from :
      (ip : Inode) (atxn : AllocTxn W) (offset count : ℕ) (bs : List Bytes)
      → Stores W H ip atxn 0 bs
      → offset + count ≤ length (concat bs)
      → offset + count < 2 ^ 64
      → read_loop W count ip atxn (offset / W.block_size) offset 0 count []
        ≡ ok (take count (drop offset (concat bs)), ip, atxn)
  read_from ip atxn offset zero bs st room small =
      read_done 0 ip atxn (offset / W.block_size) offset 0 0 [] (omega arith)
  read_from ip atxn offset (suc c) bs st room small =
      let k = offset / W.block_size in
      let o = offset % W.block_size in
      let whole = div-add-mod offset W.block_size in
      let (rest, st', all) = skip_blocks ip atxn k 0 k bs st (omega arith) in
      let len : length (concat rest) ≡ length (concat bs) - W.block_size * k =
        ap length all ∙ length-drop (W.block_size * k) (concat bs) in
      let all_left : suc c - 0 ≡ suc c = omega arith in
      read_loop_lem (suc c) ip atxn k offset 0 (suc c) [] rest st' (omega (arith, len, room, whole))
        (omega (arith, small)) (omega arith) (omega arith)
      ∙ ap (λ m. ok (take m (drop o (concat rest)), ip, atxn)) all_left
      ∙ ap (λ d. ok (take (suc c) (drop o d), ip, atxn)) all
      ∙ ap (λ d. ok (take (suc c) d, ip, atxn))
          (drop-drop o (W.block_size * k) offset (concat bs) (omega (arith, whole)))

  -- Inside the file.
  read_inside :
      (ip : Inode) (atxn : AllocTxn W) (offset n count : ℕ) (bs : List Bytes)
      → Stores W H ip atxn 0 bs
      → ip.size ≤ length (concat bs)
      → offset + n < 2 ^ 64
      → leb ip.size offset ≡ false
      → (if leb ip.size (add64 offset n) then ip.size - offset else n) ≡ count
      → offset + count ≤ ip.size
      → count ≤ n
      → read W ip atxn offset n
        ≡ ok (take count (drop offset (take ip.size (concat bs))), false, ip, atxn)
  unfolding read
  read_inside ip atxn offset n count bs st fits small before is le_size le_n =
      let run =
        read_from ip atxn offset count bs st (omega (arith, le_size, fits))
          (omega (arith, small, le_n)) in
      rw (before, is, run)
        (ap (λ d. ok (d, false, ip, atxn))
          (sym (take-drop-take count offset ip.size (concat bs) le_size)))

  -- A file has its blocks, direct or indirect, and they hold at least as many bytes as its size is. Where
  -- the end of the read is below 2^64, `Read` returns the bytes of the file from the offset on, as many as
  -- were asked for or up to the end of the file, over as many blocks as it takes. It says end of file
  -- exactly where the offset is not inside the file, and changes neither the inode nor the transaction.
  pub read_slice :
      (ip : Inode) (atxn : AllocTxn W) (offset n : ℕ) (bs : List Bytes)
      → Stores W H ip atxn 0 bs
      → ip.size ≤ length (concat bs)
      → offset + n < 2 ^ 64
      → read W ip atxn offset n
        ≡ ok (take n (drop offset (take ip.size (concat bs))), leb ip.size offset, ip, atxn)
  unfolding read
  read_slice ip atxn offset n bs st fits small =
      let f = take ip.size (concat bs) in
      let len : length f ≡ ip.size = omega (arith, length-take ip.size (concat bs), fits) in
      let sum : add64 offset n ≡ offset + n = omega (arith, small) in
      elim (Bool-cases (leb ip.size offset)) [
        | inl past ↦
            let nothing : take n (drop offset f) ≡ [] =
              ap (λ d. take n d) (drop-length f offset (omega (arith, leb→le _ _ past, len)))
              ∙ take-nil n in
            rw (past, nothing) refl
        | inr before ↦
            let inside = leb→lt _ _ before in
            elim (Bool-cases (leb ip.size (offset + n))) [
              | inl over ↦
                  let is : (if leb ip.size (add64 offset n) then ip.size - offset else n)
                      ≡ ip.size - offset =
                    rw (sum, over) refl in
                  let cut : take (ip.size - offset) (drop offset f) ≡ take n (drop offset f) =
                    ap (λ s. take (s - offset) (drop offset f)) (sym len)
                    ∙ take-drop_past f offset n (omega (arith, len, leb→le _ _ over)) in
                  read_inside ip atxn offset n (ip.size - offset) bs st fits small before is
                    (omega (arith, inside)) (omega (arith, leb→le _ _ over))
                  ∙ ap (λ d. ok (d, false, ip, atxn)) cut
                  ∙ ap (λ e. ok (take n (drop offset f), e, ip, atxn)) (sym before)
              | inr under ↦
                  let is : (if leb ip.size (add64 offset n) then ip.size - offset else n) ≡ n =
                    rw (sum, under) refl in
                  read_inside ip atxn offset n n bs st fits small before is
                    (omega (arith, leb→lt _ _ under)) (omega arith)
                  ∙ ap (λ e. ok (take n (drop offset f), e, ip, atxn)) (sym before)
            ]
      ]
