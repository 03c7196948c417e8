-- ===== src/Simple/Layout.antt =====
-- simple/0super.go and simple/fh.go: where blocks and inodes lie, and file handles.
use go_nfsd.Prelude.{ℕ, ◌*◌, Outcome, ok, ◌>>=◌}
use go_nfsd.External.World.{World}
use go_nfsd.Nfstypes.{NfsFh3}

pub record Fh : Type 0 where
  pub ino : ℕ

module _ (W : World) where
  unfoldable pub block2addr : ℕ → W.Addr
  block2addr blkno = W.mk_addr blkno 0

  unfoldable pub n_inode : ℕ
  n_inode = W.inodeblk

  unfoldable pub inum2addr : ℕ → W.Addr
  inum2addr inum = W.mk_addr W.logsize (inum * W.inodesz * 8)

  unfoldable pub make_fh : NfsFh3 → Outcome Fh
  make_fh fh3 = do (i, _) ← W.get_int (W.new_dec fh3.bytes); ok (record { ino = i })

  unfoldable pub make_fh3 : Fh → Outcome NfsFh3
  make_fh3 fh = do enc ← W.put_int (W.new_enc 16) fh.ino; ok (record { bytes = W.finish enc })

  unfoldable pub mk_root_fh3 : Outcome NfsFh3
  mk_root_fh3 = do enc ← W.put_int (W.new_enc 16) W.rootinum; ok (record { bytes = W.finish enc })
