-- ===== src/Inode/Inums.antt =====
-- inode/: the methods keep the number of their inode.
use go_nfsd.Prelude.{
  ℕ, zero, suc, ◌-◌, ◌/◌, ◌&&◌, ◌≡◌, [], Bool-cases, inl, inr, true, false, ltb, leb, if◌then◌else◌,
  ok, ◌>>=◌, Gives, Gives-ok, Gives-bind, Gives-then, Gives-if, gives_rules, add64,
}
use go_nfsd.External.World.{World}
use go_nfsd.Nfstypes.{Bytes}
use go_nfsd.Alloctxn.{AllocTxn}
use go_nfsd.Inode.Layout.{Inode, write_inode, max_file_size, free_inode, dec_link}
use go_nfsd.Inode.Blocks.{bmap}
use go_nfsd.Inode.Data.{read_loop, read, Writing, write_loop, write, write_end}
use go_nfsd.Inode.Sizes.{
  is_shrinking, shrink_fits, free_index, shrink_index, shrink_one, shrink_loop, shrink, resize,
}

module _ (W : World) where
  pub bmap-inum :
      (i : ℕ) (ip : Inode) (atxn : AllocTxn W) (bn : ℕ)
      → ip.inum ≡ i
      → Gives (λ r. r.2.inum ≡ i) (bmap W ip atxn bn)
  unfolding bmap
  bmap-inum i ip atxn bn e = search gives_rules depth 14

  pub read_loop-inum :
      (i fuel : ℕ) (ip : Inode) (atxn : AllocTxn W) (boff off n count : ℕ) (bytes : Bytes)
      → ip.inum ≡ i
      → Gives (λ r. r.1.inum ≡ i) (read_loop W fuel ip atxn boff off n count bytes)
  unfolding read_loop
  read_loop-inum i zero ip atxn boff off n count bytes e = search gives_rules
  read_loop-inum i (suc fuel) ip atxn boff off n count bytes e =
      let rest = read_loop-inum i fuel in
      Gives-if _ _ _ (Gives-ok _ e)
        (Gives-then _ _ (bmap-inum i ip atxn boff e) λ r e'. search (gives_rules, rest) depth 12)

  pub read-inum :
      (i : ℕ) (ip : Inode) (atxn : AllocTxn W) (offset count : ℕ)
      → ip.inum ≡ i
      → Gives (λ r. r.2.inum ≡ i) (read W ip atxn offset count)
  unfolding read
  read-inum i ip atxn offset count e =
      let count' = if leb ip.size (add64 offset count) then ip.size - offset else count in
      let loop = read_loop-inum i count' ip atxn (offset / W.block_size) offset 0 count' [] e in
      Gives-if (leb ip.size offset) _ _ (Gives-ok ([], true, ip, atxn) e) (
        Gives-then _ (λ r. ok (r.0, false, r.1, r.2)) loop
          λ r e'. Gives-ok (r.0, false, r.1, r.2) e')

  pub write_loop-inum :
      (i fuel : ℕ) (w : Writing W) (boff off n : ℕ) (bytes : Bytes)
      → w.ip.inum ≡ i
      → Gives (λ r. r.ip.inum ≡ i) (write_loop W fuel w boff off n bytes)
  unfolding write_loop
  write_loop-inum i zero w boff off n bytes e = Gives-ok _ e
  write_loop-inum i (suc fuel) w boff off n bytes e =
      let rest = write_loop-inum i fuel in
      Gives-if _ _ _ (Gives-ok _ e) (
        Gives-then _ _ (bmap-inum i w.ip w.atxn boff e) λ r e'. search (gives_rules, rest) depth 12)

  grow-inum :
      (i : ℕ) (ip : Inode) (n : ℕ)
      → ip.inum ≡ i
      → (if ltb ip.size n then record ip { size = n } else ip).inum ≡ i
  grow-inum i ip n e = elim (Bool-cases (ltb ip.size n)) [ inl h ↦ rw h e | inr h ↦ rw h e ]

  write_end-inum :
      (i : ℕ) (w : Writing W) (offset : ℕ)
      → w.ip.inum ≡ i
      → Gives (λ r. r.2.inum ≡ i) (write_end W w offset)
  unfolding write_end
  write_end-inum i w offset e =
      let size = grow-inum i w.ip (add64 offset w.cnt) e in search (gives_rules, size) depth 10

  pub write-inum :
      (i : ℕ) (ip : Inode) (atxn : AllocTxn W) (offset count : ℕ) (bytes : Bytes)
      → ip.inum ≡ i
      → Gives (λ r. r.2.inum ≡ i) (write W ip atxn offset count bytes)
  unfolding write
  write-inum i ip atxn offset count bytes e =
      Gives-if (ltb (max_file_size W) (add64 offset count)) _ _ (Gives-ok (0, false, ip, atxn) e) (
        Gives-then _ (λ w. write_end W w offset)
          (write_loop-inum i count
            (record { ip = ip; atxn = atxn; cnt = 0; no_room = false; alloc = false })
            (offset / W.block_size) offset count bytes e)
          λ w e'. write_end-inum i w offset e')

  free_index-inum :
      (i : ℕ) (ip : Inode) (atxn : AllocTxn W) (k : ℕ)
      → ip.inum ≡ i
      → Gives (λ r. r.0.inum ≡ i) (free_index W ip atxn k)
  unfolding free_index
  free_index-inum i ip atxn k e = search gives_rules depth 10

  shrink_index-inum :
      (i : ℕ) (ip : Inode) (atxn : AllocTxn W) (k level off : ℕ)
      → ip.inum ≡ i
      → Gives (λ r. r.0.inum ≡ i) (shrink_index W ip atxn k level off)
  unfolding shrink_index
  shrink_index-inum i ip atxn k level off e = search gives_rules depth 10

  shrink_one-inum :
      (i : ℕ) (ip : Inode) (atxn : AllocTxn W)
      → ip.inum ≡ i
      → Gives (λ r. r.0.inum ≡ i) (shrink_one W ip atxn)
  unfolding shrink_one
  shrink_one-inum i ip atxn e = search gives_rules depth 10

  shrink_loop-inum :
      (i fuel : ℕ) (ip : Inode) (atxn : AllocTxn W)
      → ip.inum ≡ i
      → Gives (λ r. r.0.inum ≡ i) (shrink_loop W fuel ip atxn)
  unfolding shrink_loop
  shrink_loop-inum i zero ip atxn e = Gives-ok _ e
  shrink_loop-inum i (suc fuel) ip atxn e =
      let rest = shrink_loop-inum i fuel in
      Gives-if (is_shrinking W ip && shrink_fits W atxn 5) _ _
        (Gives-then _ (λ r. shrink_loop W fuel r.0 r.1) (shrink_one-inum i ip atxn e)
          λ r e'. rest r.0 r.1 e')
        (Gives-ok (ip, atxn) e)

  pub shrink-inum :
      (i : ℕ) (ip : Inode) (atxn : AllocTxn W)
      → ip.inum ≡ i
      → Gives (λ r. r.1.inum ≡ i) (shrink W ip atxn)
  unfolding shrink
  shrink-inum i ip atxn e =
      Gives-then _ (λ r. write_inode W r.0 r.1 >>= λ a. ok (is_shrinking W r.0, r.0, a))
        (shrink_loop-inum i ip.shrink_size ip atxn e)
        λ r e'. Gives-bind _ _ λ a. Gives-ok (is_shrinking W r.0, r.0, a) e'

  pub resize-inum :
      (i : ℕ) (ip : Inode) (atxn : AllocTxn W) (sz : ℕ)
      → ip.inum ≡ i
      → Gives (λ r. r.1.inum ≡ i) (resize W ip atxn sz)
  unfolding resize
  resize-inum i ip0 atxn0 sz e =
      let oldsz = W.round_up ip0.size W.block_size in
      let new_sz = W.round_up sz W.block_size in
      let ip : Inode = record ip0 {
        size = sz;
        shrink_size = if ltb new_sz oldsz then oldsz else new_sz;
      } in
      Gives-bind _ _ λ atxn.
        Gives-if (ltb new_sz oldsz) _ _
          (Gives-if (shrink_fits W atxn (oldsz - new_sz)) _ _
            (Gives-then _ (λ r. ok (false, r.1, r.2)) (shrink-inum i ip atxn e)
              λ r e'. Gives-ok (false, r.1, r.2) e')
            (Gives-ok (true, ip, atxn) e))
          (Gives-ok (false, ip, atxn) e)

  pub free_inode-inum :
      (i : ℕ) (ip : Inode) (atxn : AllocTxn W)
      → ip.inum ≡ i
      → Gives (λ r. r.0.inum ≡ i) (free_inode W ip atxn)
  unfolding free_inode
  free_inode-inum i ip atxn e = search gives_rules depth 10

  pub dec_link-inum :
      (i : ℕ) (ip : Inode) (atxn : AllocTxn W)
      → ip.inum ≡ i
      → Gives (λ r. r.1.inum ≡ i) (dec_link W ip atxn)
  unfolding dec_link
  dec_link-inum i ip atxn e = search gives_rules depth 10
