-- ===== src/Simple/Init.antt =====
-- simple/inode.go `inodeInit` and simple/mkfs.go: a fresh server holds what the disk's inodes say.
use native.Mathlib.Decide.{ℕ_discrete}
use go_nfsd.Prelude.{
  ℕ, zero, suc, ◌+◌, ◌≤◌, ◌<◌, ◌≡◌, refl, sym, ap, ◌∙◌, true, length, length-take, take, ok, none,
  some, if◌then◌else◌, subst, arith,
}
use go_nfsd.External.World.{World, WorldLaws}
use go_nfsd.Nfstypes.{Bytes}
use go_nfsd.Simple.Layout.{n_inode, block2addr}
use go_nfsd.Simple.Inode.{read_inode, inode_init, inode_init_loop}
use go_nfsd.Simple.Ops.{make_nfs}
use go_nfsd.Simple.Blocks.{data_bnum, Holds, Files, valid_inum-lt}
use go_nfsd.Simple.Files.{
  with_size, write_inode_sized, with_size-Holds, with_size-OthersKept, with_size-block,
  read_inode-with_size,
}
use go_nfsd.Simple.Files.Reads.{length-block}
use go_nfsd.Simple.Server.{Serves, commit_done-Files}

module _ (W : World) (H : WorldLaws W) (size old : ℕ → ℕ) (sizes : (i : ℕ) → size i ≤ W.block_size)
    (start : W.Op) where
  -- What the inode table of the operation says before `inodeInit`.
  abbrev pub Inodes : W.Op → ℕ → Type 0
  Inodes op i =
      (j : ℕ)
      → i ≤ j
      → j < W.inodeblk
      → read_inode W op j ≡ ok (record { inum = j; size = size j; data_bnum = old j })

  -- The content of each file: the first bytes of the block that `inodeInit` gives it.
  abbrev pub content : ℕ → Bytes
  content i = take (size i) (W.read_buf start (block2addr W (data_bnum W i)) W.nbitblock)

  length-content : (i : ℕ) → length (content i) ≡ size i
  length-content i =
      let buf = W.read_buf start (block2addr W (data_bnum W i)) W.nbitblock in
      omega (
        arith,
        length-take (size i) buf,
        length-block W H start (block2addr W (data_bnum W i)),
        sizes i,
      )

  abbrev pub SameBlocks : W.Op → Type 0
  SameBlocks op =
      (j : ℕ)
      → W.read_buf op (block2addr W (data_bnum W j)) W.nbitblock
        ≡ W.read_buf start (block2addr W (data_bnum W j)) W.nbitblock

  -- One round: the inode of `i` is rewritten, and all else is as it was.
  module _ (op : W.Op) (i : ℕ) (same : SameBlocks op) where
    after : W.Op
    after = with_size W H op i (content i)

    after-Holds : Holds W H after i (content i)
    unfolding after
    after-Holds =
        let len = length-content i in
        with_size-Holds W H op i (content i) (omega (arith, sizes i)) (
          ap (λ b. take (length (content i)) b) (same i)
          ∙ ap (λ n. take n (W.read_buf start (block2addr W (data_bnum W i)) W.nbitblock)) len)

    after-SameBlocks : SameBlocks after
    unfolding after
    after-SameBlocks j = with_size-block W H op i (content i) j ∙ same j

    after-Inodes : Inodes op i → Inodes after (suc i)
    unfolding after
    after-Inodes todo j le lt =
        read_inode-with_size W H op i (content i) j (omega arith) ∙ todo j (omega arith) lt

  loop_lem :
      (n i : ℕ) (op : W.Op)
      → i + n ≡ W.inodeblk
      → ((j : ℕ) → j < i → Holds W H op j (content j))
      → Inodes op i
      → SameBlocks op
      → (op' : W.Op) × (inode_init_loop W op n i ≡ ok op')
        × ((j : ℕ) → j < W.inodeblk → Holds W H op' j (content j))
  unfolding inode_init_loop after
  loop_lem zero i op e done todo same = (op, refl, λ j lt. done j (omega arith))
  loop_lem (suc n) i op e done todo same =
      let here = todo i (omega arith) (omega arith) in
      let wrote = write_inode_sized W H op i (content i) (size i) (length-content i) in
      let done' : (j : ℕ) → j < suc i → Holds W H (after op i same) j (content j) = λ j lt.
        elim (ℕ_discrete j i) [
          | yes e ↦
              subst (λ k. Holds W H (after op i same) k (content k)) (sym e) (after-Holds op i same)
          | no ne ↦
              with_size-OthersKept W H op i (content i) j (content j) ne (done j (omega arith))
        ] in
      let (op', run, held) =
        loop_lem n (suc i) (after op i same) (omega arith) done' (after-Inodes op i same todo)
          (after-SameBlocks op i same) in
      (op', rw (here, wrote) run, held)

  -- `inodeInit` over a table whose inodes have sizes of one block at most gives each file its block,
  -- and keeps its size.
  pub inode_init_lem :
      Inodes start 0 → (op' : W.Op) × (inode_init W start ≡ ok op') × Files W H op' content
  unfolding inode_init n_inode
  inode_init_lem todo =
      let (op', run, held) =
        loop_lem W.inodeblk 0 start (omega arith) (λ j lt. absurd (omega arith)) todo (λ j. refl) in
      (op', run, λ j v. held j (valid_inum-lt W H j v))

-- MakeNfs on a log whose inode table has sizes of one block at most does not panic. Where its
-- commit fails it returns nil, and else a server that holds, for each file number, the first bytes
-- of the number's own block, as many as the table says.
pub make_nfs_lem :
    (W : World) (H : WorldLaws W) (size old : ℕ → ℕ) (log : W.Log)
    → ((i : ℕ) → size i ≤ W.block_size)
    → ((i : ℕ)
        → i < W.inodeblk
        → read_inode W (W.begin log) i ≡ ok (record { inum = i; size = size i; data_bnum = old i }))
    → (op : W.Op) × (make_nfs W log
        ≡ ok (
            if (W.commit_wait log op true).0
            then some (record { t = (W.commit_wait log op true).1; l = W.mk_lock_map })
            else none))
      × ((W.commit_wait log op true).0 ≡ true
          → Serves W H
              (record { t = (W.commit_wait log op true).1; l = W.mk_lock_map })
              (λ i.
                take
                  (size i)
                  (W.read_buf (W.begin log) (block2addr W (data_bnum W i)) W.nbitblock)))
unfolding make_nfs
make_nfs_lem W H size old log sizes table =
    let (op, run, held) = inode_init_lem W H size old sizes (W.begin log) (λ i _ lt. table i lt) in
    (op, rw run, λ done. commit_done-Files W H log op done held)
