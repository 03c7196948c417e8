-- ===== src/Nfs/Mount.antt =====
-- nfs/mount.go: the mount procedure of the full server.
use go_nfsd.Prelude.{Outcome, ok, ◌>>=◌}
use go_nfsd.External.World.{World}
use go_nfsd.Nfstypes.{Bytes}
use go_nfsd.Fh.{mk_root_fh3}

-- The file handle that MNT hands out, with the status MNT3_OK.
unfoldable pub mountproc3_mnt : World → Outcome Bytes
unfolding mk_root_fh3
mountproc3_mnt W = do fh3 ← mk_root_fh3 W; ok fh3.bytes
