-- ===== src/Inode/Contents.antt =====
-- inode/inode.go: the blocks of a file as its bytes, and the copy loops of `Read` and `Write`.
use native.Mathlib.Nat.{mod-lt, mul-mod_right, div-add-mod}
use mathlib.Core.List.{append_assoc, append-nil}
use go_nfsd.Prelude.{
  ℕ, zero, suc, ◌+◌, ◌-◌, ◌*◌, ◌/◌, ◌%◌, ◌≤◌, ◌<◌, ◌≡◌, ◌≢◌, refl, sym, ap, ◌∙◌, List, [], ◌∷◌,
  ◌++◌, length, take, drop, get_elem?, get_elem?-some, some, ◌==◌, false, ok, index, arith,
}
use go_nfsd.Prelude.SliceLaws.{drop-eq-cons}
use go_nfsd.External.World.{World, WorldLaws}
use go_nfsd.Nfstypes.{Bytes}
use go_nfsd.Super.{block2addr}
use go_nfsd.Alloctxn.{AllocTxn}
use go_nfsd.Alloctxn.Calls.{InData}
use go_nfsd.Inode.Layout.{Inode}
use go_nfsd.Inode.Blocks.{bmap}
use go_nfsd.Inode.Data.{read_bytes}

abbrev pub concat : List Bytes → Bytes
concat [] = []
concat (b ∷ bs) = b ++ concat bs

pub take_in_append :
    (o n : ℕ) (b r : Bytes) → o + n ≤ length b → take n (drop o (b ++ r)) ≡ take n (drop o b)
take_in_append zero zero b r h = refl
take_in_append zero (suc n) [] r h = absurd (omega arith)
take_in_append zero (suc n) (x ∷ b) r h = ap (◌∷◌ x) (take_in_append zero n b r (omega arith))
take_in_append (suc o) n [] r h = absurd (omega arith)
take_in_append (suc o) n (x ∷ b) r h = take_in_append o n b r (omega arith)

pub take_over_append :
    (o m n t : ℕ) (b r : Bytes)
    → o + m ≡ length b
    → t ≡ m + n
    → take t (drop o (b ++ r)) ≡ take m (drop o b) ++ take n r
take_over_append zero zero n t [] r h e = ap (λ t. take t r) (omega arith)
take_over_append zero zero n t (x ∷ b) r h e = absurd (omega arith)
take_over_append zero (suc m) n t [] r h e = absurd (omega arith)
take_over_append zero (suc m) n zero (x ∷ b) r h e = absurd (omega arith)
take_over_append zero (suc m) n (suc t) (x ∷ b) r h e =
    ap (◌∷◌ x) (take_over_append zero m n t b r (omega arith) (omega arith))
take_over_append (suc o) m n t [] r h e = absurd (omega arith)
take_over_append (suc o) m n t (x ∷ b) r h e = take_over_append o m n t b r (omega arith) e

pub drop_over_append :
    (o m t : ℕ) (b r : Bytes) → length b ≡ m → t ≡ m + o → drop t (b ++ r) ≡ drop o r
drop_over_append o zero t [] r h e = ap (λ t. drop t r) (omega arith)
drop_over_append o (suc m) t [] r h e = absurd (omega arith)
drop_over_append o zero t (x ∷ b) r h e = absurd (omega arith)
drop_over_append o (suc m) zero (x ∷ b) r h e = absurd (omega arith)
drop_over_append o (suc m) (suc t) (x ∷ b) r h e =
    drop_over_append o m t b r (omega arith) (omega arith)

index_there : (d : Bytes) (i x : ℕ) → get_elem? d i ≡ some x → index d i ≡ ok x
unfolding index
index_there d i x h = rw (h, index)

-- The copy loop of `Read` appends a slice of the buffer.
pub read_bytes_lem :
    (buf : Bytes) (i n : ℕ) (acc : Bytes)
    → i + n ≤ length buf
    → read_bytes buf i n acc ≡ ok (acc ++ take n (drop i buf))
unfolding read_bytes
read_bytes_lem buf i zero acc h = rw append-nil
read_bytes_lem buf i (suc n) acc h =
    let (x, here) = get_elem?-some buf i (omega arith) in
    let rest = read_bytes_lem buf (suc i) n (acc ++ (x ∷ [])) (omega arith) in
    rw (index_there buf i x here, rest, append_assoc, drop-eq-cons buf i x here)

pub no_null : (n : ℕ) → n ≢ 0 → (n == 0) ≡ false
no_null n h = ground arith

module _ (W : World) (H : WorldLaws W) where
  pub block_size-pos : 0 < W.block_size
  block_size-pos = grind (arith, H.inodeblk_lem, H.inodesz_lem, H.inodeblk_large)

  pub length-block : (op : W.Op) (a : W.Addr) → length (W.read_buf op a W.nbitblock) ≡ W.block_size
  length-block op a = simp H.nbitblock_lem (H.length_read op a W.block_size)

  -- The block `boff` of the file is there, and has the bytes `b`.
  pub record Block (ip : Inode) (atxn : AllocTxn W) (boff : ℕ) (b : Bytes) : Type 0 where
    pub blkno : ℕ
    pub mapped : bmap W ip atxn boff ≡ ok (blkno, false, ip, atxn)
    pub there : blkno ≢ 0
    pub in_data : InData W atxn.super blkno
    pub content : W.read_buf atxn.op (block2addr W atxn.super blkno) W.nbitblock ≡ b

  -- The blocks of the file from `boff` on have the bytes `bs`.
  abbrev pub Stores : Inode → AllocTxn W → ℕ → List Bytes → Type 0
  Stores ip atxn boff [] = Unit
  Stores ip atxn boff (b ∷ bs) = Block ip atxn boff b × Stores ip atxn (suc boff) bs

  pub length-Block :
      {ip : Inode} {atxn : AllocTxn W} {boff : ℕ} {b : Bytes}
      → Block ip atxn boff b
      → length b ≡ W.block_size
  length-Block h = ap length (sym h.content) ∙ length-block _ _

  -- The end of a block is a multiple of the block size.
  pub block_end : (off : ℕ) → (off + (W.block_size - off % W.block_size)) % W.block_size ≡ 0
  block_end off =
      let lt = mod-lt off block_size-pos in
      let whole = div-add-mod off W.block_size in
      let end : off + (W.block_size - off % W.block_size)
          ≡ W.block_size * suc (off / W.block_size) =
        omega (arith, lt, whole) in
      ap (λ n. n % W.block_size) end ∙ mul-mod_right W.block_size (suc (off / W.block_size))
