-- ===== src/Simple/Blocks.antt =====
-- Which bytes of the disk hold a file, and that a write to one file's inode or block leaves the
-- other files alone.
pub mod Frames
use go_nfsd.Prelude.{
  ℕ, ◌+◌, ◌*◌, ◌≤◌, ◌<◌, ◌^◌, ◌≡◌, true, length, ltb, leb, ◌==◌, if◌then◌else◌, take, ap, arith,
}
use go_nfsd.External.World.{World, WorldLaws}
use go_nfsd.Nfstypes.{Bytes}
use go_nfsd.Simple.Layout.{block2addr, n_inode, inum2addr}
use go_nfsd.Simple.Ops.{valid_inum}
use go_nfsd.Simple.Codec.{inode_bytes}

-- The block of file `inum`, as `inodeInit` assigns it.
abbrev pub data_bnum : World → ℕ → ℕ
data_bnum W inum = W.logsize + 1 + inum

module _ (W : World) (H : WorldLaws W) where
  -- In the operation's view, the file with the number `inum` has the content `f`.
  pub record Holds (op : W.Op) (inum : ℕ) (f : Bytes) : Type 0 where
    pub fits : length f ≤ W.block_size
    pub inode :
        W.read_buf op (inum2addr W inum) (W.inodesz * 8)
        ≡ inode_bytes W H (length f) (data_bnum W inum)
    pub content : take (length f) (W.read_buf op (block2addr W (data_bnum W inum)) W.nbitblock) ≡ f

  -- Every file that clients can name holds its content of `F`.
  abbrev pub Files : W.Op → (ℕ → Bytes) → Type 0
  Files op F = (inum : ℕ) → valid_inum W inum ≡ true → Holds op inum (F inum)

  pub valid_inum-lt : (inum : ℕ) → valid_inum W inum ≡ true → inum < W.inodeblk
  unfolding valid_inum n_inode
  valid_inum-lt inum h = ground arith

  -- Inode numbers and block numbers of the server are small.
  pub inodeblk-le : W.inodeblk ≤ 512
  inodeblk-le = omega (arith, H.inodeblk_lem, scaled, H.block_size_small)
    where
      scaled : W.inodeblk * W.inodesz ≡ W.inodeblk * 128
      scaled = ap (λ n. W.inodeblk * n) H.inodesz_lem
