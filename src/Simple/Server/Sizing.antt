-- ===== src/Simple/Server/Sizing.antt =====
-- SETATTR of simple/ops.go: truncation, extension with zeros, and its limits.
use go_nfsd.Prelude.{
  ℕ, ◌-◌, ◌^◌, ◌≤◌, ◌<◌, ◌≡◌, inl, inr, sym, ap, ◌∙◌, true, false, Bool-cases, length,
  length-replicate, length-append, length-take, replicate, take, ltb, ltb→lt, ltb→le, lt→ltb,
  le→ltb, le→leb, ◌==◌, ==_iff, ◌++◌, ok, panic, write_at, make_bytes, sub64, IsU64, if◌then◌else◌,
  arith,
}
use go_nfsd.Prelude.SliceLaws.{write_at_end, take-take}
use go_nfsd.External.World.{World, WorldLaws}
use go_nfsd.Nfstypes.{Bytes, nfs3err_nospc}
use go_nfsd.Nfstypes.Replies.{SetattrArgs}
use go_nfsd.Simple.Ops.{
  Nfs, fh2ino, valid_inum, nfsproc3_setattr, setattr_internal, setattr_wp, setattr_extend,
  with_lock,
}
use go_nfsd.Simple.Layout.{block2addr}
use go_nfsd.Simple.Blocks.{data_bnum, valid_inum-lt}
use go_nfsd.Simple.Files.{
  inode_of, read_inode_lem, with_size, write_inode_sized, with_size-Holds, with_size-OthersKept,
}
use go_nfsd.Simple.Files.Writes.{write_counted, write_refused}
use go_nfsd.Simple.Server.{update, Serves, Commits, with_lock-Commits, with_lock_same, update-Files}

-- The content cut or filled with zeros to the size `n`.
abbrev pub resize : Bytes → ℕ → Bytes
resize f n = if ltb (length f) n then f ++ replicate (n - length f) 0 else take n f

make_bytes_lem : (n : ℕ) → n ≤ 2 ^ 48 → make_bytes n ≡ ok (replicate n 0)
unfolding make_bytes
make_bytes_lem n h = rw (le→leb _ _ h)

make_bytes-panic : (n : ℕ) → 2 ^ 48 < n → make_bytes n ≡ panic
unfolding make_bytes
make_bytes-panic n h = ground arith

module _ (W : World) (H : WorldLaws W) (nfs : Nfs W) {F : ℕ → Bytes} (serves : Serves W H nfs F)
    (inum : ℕ) (valid : valid_inum W inum ≡ true) (args : SetattrArgs)
    (fh : fh2ino W args.object ≡ ok inum) where
  -- SETATTR without a size changes nothing.
  pub nfsproc3_setattr_unset :
      args.new_attributes.size.set_it ≡ false
      → Commits W H nfs F F (λ status. record { status = status }) (nfsproc3_setattr W nfs args)
  unfolding nfsproc3_setattr setattr_internal setattr_wp
  nfsproc3_setattr_unset unset =
      let inode = read_inode_lem W H inum (valid_inum-lt W H inum valid) (serves inum valid) in
      rw (fh, valid)
        (with_lock-Commits W H nfs inum _ _ (W.begin nfs.t) serves serves (rw (inode, unset)))

  module _ (wanted : args.new_attributes.size.set_it ≡ true)
      (small : IsU64 args.new_attributes.size.value) where
    abbrev newsize : ℕ
    newsize = args.new_attributes.size.value

    shrunk :
        newsize ≤ length (F inum)
        → Commits W H nfs F
            (update F inum (take newsize (F inum)))
            (λ status. record { status = status })
            (nfsproc3_setattr W nfs args)
    unfolding nfsproc3_setattr setattr_internal setattr_wp
    shrunk less =
        let held = serves inum valid in
        let op = W.begin nfs.t in
        let g = take newsize (F inum) in
        let len : length g ≡ newsize = omega (arith, length-take newsize (F inum)) in
        let buf = W.read_buf op (block2addr W (data_bnum W inum)) W.nbitblock in
        let content : take (length g) buf ≡ g =
          ap (λ n. take n buf) len
          ∙ sym (take-take newsize (length (F inum)) buf less)
          ∙ ap (take newsize) held.content in
        let new = with_size-Holds W H op inum g (omega (arith, held.fits)) content in
        let inode = read_inode_lem W H inum (valid_inum-lt W H inum valid) held in
        rw (fh, valid)
          (with_lock-Commits W H nfs inum _ _ (with_size W H op inum g) serves
            (update-Files W H inum g serves new (with_size-OthersKept W H op inum g))
            (rw (inode, wanted, le→ltb _ _ less, write_inode_sized W H op inum g newsize len)))

    grown :
        length (F inum) < newsize
        → newsize ≤ W.block_size
        → Commits W H nfs F
            (update F inum (F inum ++ replicate (newsize - length (F inum)) 0))
            (λ status. record { status = status })
            (nfsproc3_setattr W nfs args)
    unfolding nfsproc3_setattr setattr_internal setattr_wp setattr_extend
    grown more room =
        let held = serves inum valid in
        let f = F inum in
        let n = newsize - length f in
        let zeros : Bytes = replicate n 0 in
        let len : length zeros ≡ n = length-replicate {A = ℕ} n 0 in
        let (op, run, new, kept) =
          write_counted W H inum (length f) zeros held (omega arith) (omega arith) n (sym len) in
        let inode = read_inode_lem W H inum (valid_inum-lt W H inum valid) held in
        let more_by : sub64 newsize (length f) ≡ n = omega arith in
        let made = make_bytes_lem n (omega (arith, H.block_size_small)) in
        let appended : write_at f (length f) zeros ≡ f ++ zeros = write_at_end f zeros in
        let size : length (f ++ zeros) ≡ newsize = omega (arith, length-append f zeros) in
        let new' = rw appended at new in
        let reached : (length (f ++ zeros) == newsize) ≡ true = (==_iff _ _).1 size in
        rw (fh, valid)
          (with_lock-Commits W H nfs inum _ _ op serves
            (update-Files W H inum (f ++ zeros) serves new' kept)
            (rw (inode, wanted, lt→ltb _ _ more, more_by, made, run, appended, reached)))

    -- SETATTR of a file that the server holds, to a size of at most one block, commits the content cut
    -- to that size, or filled with zeros up to it; no other file changes.
    pub nfsproc3_setattr_lem :
        args.new_attributes.size.value ≤ W.block_size
        → Commits W H nfs F
            (update F inum (resize (F inum) args.new_attributes.size.value))
            (λ status. record { status = status })
            (nfsproc3_setattr W nfs args)
    nfsproc3_setattr_lem room = elim (Bool-cases (ltb (length (F inum)) newsize)) [
      | inl more ↦ rw more (grown (ltb→lt _ _ more) room)
      | inr less ↦ rw less (shrunk (ltb→le _ _ less))
    ]

    -- SETATTR of a file that the server holds, to a size that is beyond one block and larger than the
    -- content by 2^48 at most, fails with NOSPC; the server is as it was.
    pub nfsproc3_setattr_nospc :
        W.block_size < args.new_attributes.size.value
        → args.new_attributes.size.value - length (F inum) ≤ 2 ^ 48
        → nfsproc3_setattr W nfs args ≡ ok (record { status = nfs3err_nospc }, nfs)
    unfolding nfsproc3_setattr setattr_internal setattr_wp setattr_extend
    nfsproc3_setattr_nospc over short =
        let held = serves inum valid in
        let f = F inum in
        let n = newsize - length f in
        let zeros : Bytes = replicate n 0 in
        let inode = read_inode_lem W H inum (valid_inum-lt W H inum valid) held in
        let refused =
          write_refused W H (W.begin nfs.t) (inode_of W inum f) (length f) n zeros
            (inr (inl (omega (arith, held.fits)))) in
        let more : ltb (length f) newsize ≡ true = lt→ltb _ _ (omega (arith, held.fits)) in
        let more_by : sub64 newsize (length f) ≡ n = omega (arith, held.fits) in
        let made = make_bytes_lem n short in
        let not_reached : (length f == newsize) ≡ false = ground (arith, held.fits) in
        rw (fh, valid)
          (with_lock_same W H nfs inum _
            (rw (inode, wanted, more, more_by, made, refused, not_reached)))

    -- SETATTR of a file that the server holds, to a size that is larger than the content by more than
    -- 2^48, panics: the server asks Go for a slice that is longer than an allocation may be.
    pub nfsproc3_setattr-panic :
        2 ^ 48 < args.new_attributes.size.value - length (F inum)
        → nfsproc3_setattr W nfs args ≡ panic
    unfolding nfsproc3_setattr setattr_internal setattr_wp setattr_extend with_lock
    nfsproc3_setattr-panic large =
        let held = serves inum valid in
        let f = F inum in
        let n = newsize - length f in
        let inode = read_inode_lem W H inum (valid_inum-lt W H inum valid) held in
        let more : ltb (length f) newsize ≡ true = lt→ltb _ _ (omega arith) in
        let more_by : sub64 newsize (length f) ≡ n = omega arith in
        rw (fh, valid, inode, wanted, more, more_by, make_bytes-panic n large)
