-- ===== src/Nfs/Renaming.antt =====
-- nfs/nfs_ops.go: RENAME. A round of its loop ends with a reply, begins again, or goes on to move the
-- name.
use go_nfsd.Prelude.{
  ℕ, zero, suc, Bool, true, false, not, ◌&&◌, ◌||◌, ◌==◌, if◌then◌else◌, length, [], ◌∷◌, Option,
  none, some,
}
use go_nfsd.External.World.{World}
use go_nfsd.Programs.{◌>>=◌, ◌>>◌, pure, crash, out_of_rounds, lift, if_nil}
use go_nfsd.Nfstypes.{
  Bytes, Nfsstat3, nfs3_ok, nfs3err_io, nfs3err_inval, nfs3err_stale, nfs3err_noent,
  nfs3err_notempty, nf3dir,
}
use go_nfsd.Nfstypes.Replies.{StatusRes}
use go_nfsd.Nfstypes.Procs.{RenameArgs}
use go_nfsd.Fh.{Fh, make_fh, equal}
use go_nfsd.Fstxn.State.{FsProg, begin_again}
use go_nfsd.Fstxn.Inodes.{load, get_inode_fh}
use go_nfsd.Fstxn.Commit.{commit, abort}
use go_nfsd.Dir.Entries.{illegal_name}
use go_nfsd.Dir.Names.{lookup_name, add_name, rem_name, is_dir_empty}
use go_nfsd.Nfs.Lorder.{two_inums}
use go_nfsd.Nfs.Locking.{Inodes, inode_at, lock_inodes}
use go_nfsd.Nfs.Session.{NfsProg, on_op, err_ret, commit_reply}
use go_nfsd.Nfs.Creating.{do_dec_link}

-- `moves dipfrom dipto frominum`
pub data Round : Type 0 where
  replies : Nfsstat3 → Round
  retries : Round
  moves : ℕ → ℕ → ℕ → Round

-- The positions of the four inodes: a list of three has one directory.
abbrev pub positions : Inodes → ℕ × ℕ × ℕ × ℕ
positions inodes = if length inodes == 3 then (0, 0, 1, 2) else (0, 1, 2, 3)

module _ (W : World) where
  -- The two directories, the inode that is moved and the one in its way.
  unfoldable pub four_inodes : Inodes → FsProg W (ℕ × ℕ × ℕ × ℕ)
  four_inodes inodes = do
    let (i, j, k, l) = positions inodes
    dipfrom ← inode_at W inodes i
    dipto ← inode_at W inodes j
    src ← inode_at W inodes k
    dst ← inode_at W inodes l
    pure (dipfrom, dipto, src, dst)

  unfoldable pub validate_rename : Inodes → Fh → Fh → Bytes → Bytes → FsProg W Bool
  validate_rename inodes fromfh tofh fromn ton = do
    (dipfrom, dipto, src, dst) ← four_inodes inodes
    d ← load W dipfrom
    e ← load W dipto
    if not (d.inum == fromfh.ino)
          || not (d.gen == fromfh.gen)
          || not (e.inum == tofh.ino)
          || not (e.gen == tofh.gen)
        then pure false
        else (do
          (frominum, _) ← lookup_name W dipfrom fromn
          (toinum, _) ← lookup_name W dipto ton
          i ← load W src
          j ← load W dst
          pure (i.inum == frominum && toinum == j.inum))

  -- `errRet` and `done = true`
  unfoldable pub fails : Nfsstat3 → NfsProg W Round
  fails err = do status ← err_ret W err; pure (replies status)

  -- The two directories: one for equal handles.
  unfoldable pub rename_dirs : RenameArgs → Fh → Fh → FsProg W (Option (ℕ × ℕ))
  rename_dirs args fromh toh =
      if equal W args.source.dir args.target.dir
      then (do
        found ← get_inode_fh W args.source.dir
        pure (elim found [ none ↦ none | some p ↦ some (p, p) ]))
      else (do
        got ← lock_inodes W (two_inums fromh.ino toh.ino)
        if_nil got (pure none)
            λ inodes. (do p ← inode_at W inodes 0; q ← inode_at W inodes 1; pure (some (p, q))))

  -- The three or four inodes of a rename over a name that is there.
  unfoldable pub lock_target : ℕ → ℕ → ℕ → ℕ → FsProg W Inodes
  lock_target dipfrom dipto frominum toinum = do
    d ← load W dipfrom
    e ← load W dipto
    abort W
    begin_again W
    got ← lock_inodes W (
        if dipto == dipfrom
        then d.inum ∷ frominum ∷ toinum ∷ []
        else d.inum ∷ e.inum ∷ frominum ∷ toinum ∷ [])
    if_nil got crash λ inodes. pure inodes

  -- The name in the way is removed when it may be.
  unfoldable pub replace_target : RenameArgs → ℕ → Inodes → NfsProg W Round
  replace_target args frominum inodes = do
    (dipfrom, dipto, src, dst) ← on_op W (four_inodes inodes)
    i ← on_op W (load W src)
    j ← on_op W (load W dst)
    if not (j.kind == i.kind) then fails nfs3err_inval else (do
      empty ← on_op W (if j.kind == nf3dir then is_dir_empty W dst else pure true)
      if not empty then fails nfs3err_notempty else (do
        done ← on_op W (rem_name W dipto args.target.name)
        if not done
            then fails nfs3err_io
            else (do do_dec_link W dst; pure (moves dipfrom dipto frominum))))

  unfoldable pub rename_over : RenameArgs → Fh → Fh → ℕ → ℕ → ℕ → ℕ → NfsProg W Round
  rename_over args fromh toh dipfrom dipto frominum toinum = do
    inodes ← on_op W (lock_target dipfrom dipto frominum toinum)
    valid ← on_op W (validate_rename inodes fromh toh args.source.name args.target.name)
    if not valid then (do on_op W (abort W); pure retries) else replace_target args frominum inodes

  -- What follows in a round when both directories are locked.
  unfoldable pub rename_names : RenameArgs → Fh → Fh → ℕ → ℕ → NfsProg W Round
  rename_names args fromh toh dipfrom dipto = do
    (frominum, _) ← on_op W (lookup_name W dipfrom args.source.name)
    if frominum == W.nullinum then fails nfs3err_noent else (do
      (toinum, _) ← on_op W (lookup_name W dipto args.target.name)
      if (dipto == dipfrom) && (toinum == frominum)
          then (do on_op W (commit W); pure (replies nfs3_ok))
          else if not (toinum == W.nullinum)
          then rename_over args fromh toh dipfrom dipto frominum toinum
          else pure (moves dipfrom dipto frominum))

  unfoldable pub rename_round : RenameArgs → NfsProg W Round
  rename_round args = do
    on_op W (begin_again W)
    toh ← lift (make_fh W args.target.dir)
    fromh ← lift (make_fh W args.source.dir)
    if illegal_name args.source.name then fails nfs3err_inval else (do
      dirs ← on_op W (rename_dirs args fromh toh)
      if_nil dirs (fails nfs3err_stale)
          λ (dipfrom, dipto). rename_names args fromh toh dipfrom dipto)

  unfoldable pub rename_loop : ℕ → RenameArgs → NfsProg W Round
  rename_loop zero args = out_of_rounds
  rename_loop (suc rounds) args = do
    r ← rename_round args
    elim r [
      | replies st ↦ pure (replies st)
      | retries ↦ rename_loop rounds args
      | moves dipfrom dipto frominum ↦ pure (moves dipfrom dipto frominum)
    ]

  -- The name is moved.
  unfoldable pub move_name : RenameArgs → ℕ → ℕ → ℕ → NfsProg W Nfsstat3
  move_name args dipfrom dipto frominum = do
    gone ← on_op W (rem_name W dipfrom args.source.name)
    if not gone then err_ret W nfs3err_io else (do
      added ← on_op W (add_name W dipto frominum args.target.name)
      if not added then err_ret W nfs3err_io else commit_reply W)

  unfoldable pub nfsproc3_rename : ℕ → RenameArgs → NfsProg W StatusRes
  nfsproc3_rename rounds args = do
    r ← rename_loop rounds args
    status ← elim r [
      | replies st ↦ pure st
      | retries ↦ out_of_rounds
      | moves dipfrom dipto frominum ↦ move_name args dipfrom dipto frominum
    ]
    pure (record { status = status })
