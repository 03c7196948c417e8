-- ===== src/Inode/Resizing.antt =====
-- inode/inode.go `Resize` within the last block, and what a read finds after it.
use go_nfsd.Prelude.{
  ℕ, ◌+◌, ◌≤◌, ◌<◌, ◌^◌, ◌≡◌, refl, sym, List, length, take, drop, false, leb, le→ltb, ok, ◌>>=◌,
  IsU64, arith,
}
use go_nfsd.External.World.{World, WorldLaws}
use go_nfsd.Nfstypes.{Bytes}
use go_nfsd.Super.{mk_fs_super, n_inode}
use go_nfsd.Alloctxn.{AllocTxn}
use go_nfsd.Alloctxn.Calls.{InData}
use go_nfsd.Inode.Layout.{Inode}
use go_nfsd.Inode.Codec.{Encodable}
use go_nfsd.Inode.Data.{read}
use go_nfsd.Inode.Sizes.{resize}
use go_nfsd.Inode.Contents.{concat}
use go_nfsd.Inode.Reading.{read_slice}
use go_nfsd.Inode.Rounds.{Same}
use go_nfsd.Inode.Filled.{Fills, Fills-Stores, Fills-Same}
use go_nfsd.Inode.Updates.{Fills-blks, write_inode_lem}

module _ (W : World) (H : WorldLaws W) (sz : ℕ) (small_sz : IsU64 sz) where
  abbrev resized : Inode → ℕ → Inode
  resized ip size = record ip { size = size; shrink_size = W.round_up size W.block_size }

  Encodable-resized :
      (ip : Inode) (size : ℕ)
      → Encodable ip
      → IsU64 size
      → IsU64 (W.round_up size W.block_size)
      → Encodable (resized ip size)
  Encodable-resized ip size h small blocks = record {
    kind = h.kind;
    nlink = h.nlink;
    gen = h.gen;
    size = small;
    shrink_size = blocks;
    asec = h.asec;
    ansec = h.ansec;
    msec = h.msec;
    mnsec = h.mnsec;
    length-blks = h.length-blks;
    blks = h.blks;
  }

  -- A size that takes as many blocks only changes the inode.
  resize_within :
      (ip : Inode) (atxn : AllocTxn W) (size : ℕ)
      → atxn.super ≡ mk_fs_super W sz
      → ip.inum < n_inode W atxn.super
      → Encodable (resized ip size)
      → W.round_up size W.block_size ≡ W.round_up ip.size W.block_size
      → (op' : W.Op) × (resize W ip atxn size
          ≡ ok (false, resized ip size, record atxn { op = op' }))
        × ((b : ℕ) → InData W atxn.super b → Same W H atxn.op op' b)
  unfolding resize
  resize_within ip atxn size is lt fields same =
      let (op', wrote, kept) =
        write_inode_lem W H sz (resized ip size) atxn small_sz is lt fields in
      let no_less =
        le→ltb (W.round_up size W.block_size) (W.round_up ip.size W.block_size)
          (omega (arith, same)) in
      (op', rw (no_less, wrote) refl, kept)

  -- A file has its blocks among the direct ones, and the disk has the layout of MkFsSuper. The file is
  -- resized to a size that takes as many blocks, and then back to its size. Both succeed at once, without
  -- work for the shrinker, and then any read whose end is below 2^64 returns the bytes that the file had
  -- at the beginning: those beyond the size in between are not zero but what they were.
  pub resize_back :
      (ip : Inode) (atxn : AllocTxn W) (size : ℕ) (bs : List Bytes)
      → atxn.super ≡ mk_fs_super W sz
      → ip.inum < n_inode W atxn.super
      → Encodable ip
      → Fills W H ip atxn 0 bs
      → ip.size ≤ length (concat bs)
      → IsU64 size
      → IsU64 (W.round_up ip.size W.block_size)
      → W.round_up size W.block_size ≡ W.round_up ip.size W.block_size
      → (ip' : Inode) × (atxn' : AllocTxn W) × ((resize W ip atxn size >>= λ r.
            resize W r.1 r.2 ip.size)
          ≡ ok (false, ip', atxn'))
        × (ip'.size ≡ ip.size)
        × ((o n : ℕ)
            → o + n < 2 ^ 64
            → read W ip' atxn' o n
              ≡ ok (take n (drop o (take ip.size (concat bs))), leb ip.size o, ip', atxn'))
  resize_back ip atxn size bs is lt fields fills fits small small_up same =
      let ip1 : Inode = resized ip size in
      let ip2 : Inode = resized ip1 ip.size in
      let fields1 = Encodable-resized ip size fields small (omega (arith, same, small_up)) in
      let (op1, run1, kept1) = resize_within ip atxn size is lt fields1 same in
      let atxn1 : AllocTxn W = record atxn { op = op1 } in
      let (op2, run2, kept2) =
        resize_within ip1 atxn1 ip.size is lt
          (Encodable-resized ip1 ip.size fields1 fields.size small_up) (sym same) in
      let atxn2 : AllocTxn W = record atxn { op = op2 } in
      let fills2 =
        Fills-Same W H ip2 atxn1 op2 0 bs (λ i b le up direct ne at in_data. kept2 b in_data)
          (Fills-Same W H ip2 atxn op1 0 bs (λ i b le up direct ne at in_data. kept1 b in_data)
            (Fills-blks W H ip ip2 atxn 0 bs refl fills)) in
      (
        ip2,
        atxn2,
        rw (run1, run2) refl,
        refl,
        λ o n h. read_slice W H ip2 atxn2 o n bs (Fills-Stores W H ip2 atxn2 0 bs fills2) fits h,
      )
