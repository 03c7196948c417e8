-- ===== src/Dir/Names.antt =====
-- dir/dcache.go and dir/dir.go: the names of a directory, through its name cache.
use go_nfsd.Prelude.{ℕ, length, Bool, true, false, not, leb, ◌||◌, ◌==◌, if◌then◌else◌, [], ◌∷◌}
use go_nfsd.External.World.{World}
use go_nfsd.Programs.{◌>>=◌, ◌>>◌, pure, crash, lift}
use go_nfsd.Nfstypes.{Bytes, nf3dir}
use go_nfsd.Dcache as Dcache
use go_nfsd.Inode.Data.{write}
use go_nfsd.Fstxn.State.{FsProg, on_inode}
use go_nfsd.Fstxn.Inodes.{load}
use go_nfsd.Dir.Entries.{direntsz, maxnamelen, encode_dir_ent}
use go_nfsd.Dir.Scan as Scan
use go_nfsd.Dir.Apply.{first_two, need_dcache, get_dcache, set_dcache}

module _ (W : World) where
  -- The inode number and the offset of a name, both 0 when it is not there.
  unfoldable pub lookup_name : ℕ → Bytes → FsProg W (ℕ × ℕ)
  lookup_name dip name = do
    i ← load W dip
    if not (i.kind == nf3dir) then pure (W.nullinum, 0) else (do
      dc ← need_dcache W dip
      let (dentry, found) = Dcache.lookup dc name
      pure (if found then (dentry.inum, dentry.off) else (W.nullinum, 0)))

  unfoldable pub add_name_dir : ℕ → ℕ → Bytes → ℕ → FsProg W (ℕ × Bool)
  add_name_dir dip inum name lastoff =
      on_inode W dip (λ i atxn. first_two (Scan.add_name_dir W i atxn inum name lastoff))

  unfoldable pub add_name : ℕ → ℕ → Bytes → FsProg W Bool
  add_name dip inum name = do
    i ← load W dip
    if not (i.kind == nf3dir) || leb maxnamelen (length name) then pure false else (do
      dc ← need_dcache W dip
      (off, done) ← add_name_dir dip inum name dc.lastoff
      if not done then pure false else (do
        dc ← get_dcache W dip
        set_dcache W dip (Dcache.add (record dc { lastoff = off }) name inum off)
        pure true))

  unfoldable pub free_entry : ℕ → ℕ → FsProg W ℕ
  free_entry dip off = do
    ent ← lift (encode_dir_ent W (record { inum = W.nullinum; name = [] }))
    (n, _) ← on_inode W dip (λ i atxn. first_two (write W i atxn off direntsz ent))
    pure n

  unfoldable pub rem_name_dir : ℕ → Bytes → FsProg W (ℕ × Bool)
  rem_name_dir dip name = do
    (inum, off) ← lookup_name dip name
    if inum == W.nullinum
        then pure (0, false)
        else (do n ← free_entry dip off; pure (off, n == direntsz))

  unfoldable pub rem_name : ℕ → Bytes → FsProg W Bool
  rem_name dip name = do
    i ← load W dip
    if not (i.kind == nf3dir) || leb maxnamelen (length name) then pure false else (do
      need_dcache W dip
      (off, done) ← rem_name_dir dip name
      if not done then pure false else (do
        dc ← get_dcache W dip
        let (found, dc') = Dcache.del (record dc { lastoff = off }) name
        set_dcache W dip dc'
        if found then pure true else crash))

  unfoldable pub is_dir_empty : ℕ → FsProg W Bool
  is_dir_empty dip = on_inode W dip (λ i atxn. Scan.is_dir_empty W i atxn)

  -- "." and "..", for a directory in `parent`.
  unfoldable pub init_dir : ℕ → ℕ → FsProg W Bool
  init_dir dip parent = do
    i ← load W dip
    done ← add_name dip i.inum (46 ∷ [])
    if not done then pure false else add_name dip parent (46 ∷ 46 ∷ [])

  unfoldable pub mk_root_dir : ℕ → FsProg W Bool
  mk_root_dir dip = do
    i ← load W dip
    done ← add_name dip i.inum (46 ∷ [])
    if not done then pure false else add_name dip i.inum (46 ∷ 46 ∷ [])
