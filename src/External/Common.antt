-- ===== src/External/Common.antt =====
-- Constants of go-journal/common and goose-lang/primitive/disk, and functions of go-journal/util
-- and of goose-lang/std.
use go_nfsd.Prelude.{ℕ, ◌+◌, ◌*◌, ◌≤◌, ◌^◌, ◌≡◌, ◌↔◌, Bool, true, List}

pub record Common : Type 0 where
  pub block_size : ℕ
  pub inodesz : ℕ
  pub inodeblk : ℕ
  pub nbitblock : ℕ
  pub ninodebitmap : ℕ
  pub logsize : ℕ
  pub rootinum : ℕ
  pub nullinum : ℕ
  pub nullbnum : ℕ

-- A block is a whole number of inodes, and all sizes are far below the word size.
pub record CommonLaws (c : Common) : Type 0 where
  pub nullinum_zero : c.nullinum ≡ 0
  pub nullbnum_zero : c.nullbnum ≡ 0
  pub rootinum_one : c.rootinum ≡ 1
  pub nbitblock_lem : c.nbitblock ≡ c.block_size * 8
  pub inodeblk_lem : c.inodeblk * c.inodesz ≡ c.block_size
  pub inodeblk_large : 4 ≤ c.inodeblk
  pub inodesz_lem : c.inodesz ≡ 128
  pub block_size_small : c.block_size ≤ 2 ^ 16
  pub ninodebitmap_small : c.ninodebitmap ≤ 2 ^ 16
  pub logsize_small : c.logsize ≤ 2 ^ 16

pub record Util : Type 0 where
  pub sum_overflows : ℕ → ℕ → Bool
  pub min : ℕ → ℕ → ℕ
  pub round_up : ℕ → ℕ → ℕ
  pub clone_byte_slice : List ℕ → List ℕ
  pub bytes_equal : List ℕ → List ℕ → Bool

pub record UtilLaws (u : Util) : Type 0 where
  pub sum_overflows_iff : (a b : ℕ) → (u.sum_overflows a b ≡ true) ↔ (2 ^ 64 ≤ a + b)
  pub clone_byte_slice_lem : (d : List ℕ) → u.clone_byte_slice d ≡ d
  pub min_lem :
      (a b : ℕ)
      → (u.min a b ≤ a) × (u.min a b ≤ b) × (a ≤ b → u.min a b ≡ a) × (b ≤ a → u.min a b ≡ b)
  pub bytes_equal_iff : (a b : List ℕ) → (u.bytes_equal a b ≡ true) ↔ (a ≡ b)
