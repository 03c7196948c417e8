-- ===== src/Simple/Files.antt =====
-- simple/inode.go against the files that the disk holds: each operation on an inode is the operation
-- on the file's content.
pub mod Reads
pub mod Writes
use go_nfsd.Prelude.{
  ℕ, ◌+◌, ◌*◌, ◌≤◌, ◌<◌, ◌≡◌, ◌≢◌, refl, sym, ap, ◌∙◌, length, take, Outcome, ok, arith,
}
use go_nfsd.External.World.{World, WorldLaws}
use go_nfsd.External.Marshal.Runs.{length-two_ints}
use go_nfsd.Nfstypes.{Bytes}
use go_nfsd.Simple.Layout.{block2addr, inum2addr}
use go_nfsd.Simple.Inode.{Inode, read_inode, write_inode}
use go_nfsd.Simple.Codec.{inode_bytes, encode_lem, decode_lem}
use go_nfsd.Simple.Blocks.{data_bnum, Holds, inodeblk-le}
use go_nfsd.Simple.Blocks.Frames.{over_inode-inode, over_inode-block}

-- The inode of the file `inum` with content `f`.
abbrev pub inode_of : World → ℕ → Bytes → Inode
inode_of W inum f = record { inum = inum; size = length f; data_bnum = data_bnum W inum }

module _ (W : World) (H : WorldLaws W) where
  -- Files other than `i` keep their content.
  abbrev pub OthersKept : ℕ → W.Op → W.Op → Type 0
  OthersKept i op op' = (j : ℕ) (g : Bytes) → j ≢ i → Holds W H op j g → Holds W H op' j g

  pub read_inode_lem :
      {op : W.Op} {f : Bytes} (inum : ℕ)
      → inum < W.inodeblk
      → Holds W H op inum f
      → read_inode W op inum ≡ ok (inode_of W inum f)
  unfolding read_inode
  read_inode_lem {op} {f} inum lt h = rw h.inode (
      decode_lem W H (length f) (data_bnum W inum) inum (omega (arith, h.fits, H.block_size_small))
        (omega (arith, inodeblk-le W H, H.logsize_small)))

  length-inode_bytes : (size b : ℕ) → length (inode_bytes W H size b) ≡ W.inodesz
  length-inode_bytes size b =
      length-two_ints H.marshal W.inodesz size b (omega (arith, H.inodesz_lem))

  -- The operation after the inode of `i` is written with the size of `g`.
  abbrev pub with_size : W.Op → ℕ → Bytes → W.Op
  with_size op i g =
      W.over_write op (inum2addr W i) (W.inodesz * 8) (inode_bytes W H (length g) (data_bnum W i))

  pub write_inode_lem :
      (op : W.Op) (i : ℕ) (g : Bytes) → write_inode W (inode_of W i g) op ≡ ok (with_size op i g)
  unfolding write_inode
  write_inode_lem op i g = rw (encode_lem W H (inode_of W i g))

  pub write_inode_sized :
      (op : W.Op) (i : ℕ) (g : Bytes) (n : ℕ)
      → length g ≡ n
      → write_inode W (record { inum = i; size = n; data_bnum = data_bnum W i }) op
        ≡ ok (with_size op i g)
  write_inode_sized op i g n e =
      ap (λ k. write_inode W (record { inum = i; size = k; data_bnum = data_bnum W i }) op) (sym e)
      ∙ write_inode_lem op i g

  -- A size that the block's content supports is the file's new content.
  pub with_size-Holds :
      (op : W.Op) (i : ℕ) (g : Bytes)
      → length g ≤ W.block_size
      → take (length g) (W.read_buf op (block2addr W (data_bnum W i)) W.nbitblock) ≡ g
      → Holds W H (with_size op i g) i g
  with_size-Holds op i g fits content = record {
    fits = fits;
    inode = H.over_write_self op (inum2addr W i) W.inodesz _ (length-inode_bytes _ _);
    content = rw (over_inode-block W H op i i _ (length-inode_bytes _ _)) content;
  }

  pub with_size-OthersKept : (op : W.Op) (i : ℕ) (g : Bytes) → OthersKept i op (with_size op i g)
  with_size-OthersKept op i g j f ne h = record {
    fits = h.fits;
    inode =
        over_inode-inode W H op i j _ (λ e. ne (sym e))
          (length-inode_bytes (length g) (data_bnum W i))
        ∙ h.inode;
    content = rw (over_inode-block W H op i j _ (length-inode_bytes _ _)) h.content;
  }

  pub with_size-block :
      (op : W.Op) (i : ℕ) (g : Bytes) (j : ℕ)
      → W.read_buf (with_size op i g) (block2addr W (data_bnum W j)) W.nbitblock
        ≡ W.read_buf op (block2addr W (data_bnum W j)) W.nbitblock
  with_size-block op i g j = over_inode-block W H op i j _ (length-inode_bytes _ _)

  pub read_inode-with_size :
      (op : W.Op) (i : ℕ) (g : Bytes) (j : ℕ)
      → i ≢ j
      → read_inode W (with_size op i g) j ≡ read_inode W op j
  unfolding read_inode
  read_inode-with_size op i g j ne =
      rw (over_inode-inode W H op i j _ ne (length-inode_bytes (length g) (data_bnum W i)))
