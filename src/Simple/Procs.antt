-- ===== src/Simple/Procs.antt =====
-- simple/ops.go and simple/mount.go: the procedures with fixed answers.
use go_nfsd.Prelude.{ℕ, ◌+◌, [], ◌∷◌, true, if◌then◌else◌, not, Outcome, ok, ◌>>=◌, name_eq}
use go_nfsd.External.World.{World}
use go_nfsd.Nfstypes.{Bytes, nfs3_ok, nfs3err_noent, nfs3err_notsupp}
use go_nfsd.Nfstypes.Replies.{
  LookupArgs, LookupRes, AccessRes, StatusRes, ReaddirRes, FsinfoRes, Entry3, zero_lookup,
}
use go_nfsd.Simple.Layout.{make_fh3, mk_root_fh3}
use go_nfsd.Simple.Ops.{valid_inum}

abbrev pub name_a : Bytes
name_a = b'a' ∷ []

abbrev pub name_b : Bytes
name_b = b'b' ∷ []

-- The two tests of `NFSPROC3_LOOKUP`, from the zero value of `inum` on.
unfoldable pub lookup_inum : Bytes → ℕ
unfolding name_eq
lookup_inum fn =
    let inum : ℕ = if name_eq fn name_a then 2 else 0 in if name_eq fn name_b then 3 else inum

unfoldable pub nfsproc3_lookup : World → LookupArgs → Outcome LookupRes
nfsproc3_lookup W args =
    let inum = lookup_inum args.what.name in
    if not (valid_inum W inum) then ok (record zero_lookup { status = nfs3err_noent }) else do
      object ← make_fh3 W (record { ino = inum })
      ok (record { status = nfs3_ok; object = object })

-- READ, LOOKUP, MODIFY, EXTEND, DELETE and EXECUTE: six different bits, or'd.
unfoldable pub nfsproc3_access : AccessRes
nfsproc3_access = record { status = nfs3_ok; access = 0x01 + 0x02 + 0x04 + 0x08 + 0x10 + 0x20 }

-- CREATE, MKDIR, SYMLINK, READLINK, MKNOD, REMOVE, RMDIR, RENAME and LINK; READDIRPLUS, FSSTAT and
-- PATHCONF have the same body.
unfoldable pub not_supported : StatusRes
not_supported = record { status = nfs3err_notsupp }

unfoldable pub nfsproc3_readdir : ReaddirRes
nfsproc3_readdir =
    let e2 : Entry3 = record { fileid = 3; name = name_b; cookie = 1 } in
    let e1 : Entry3 = record { fileid = 2; name = name_a; cookie = 0 } in
    record { status = nfs3_ok; reply = record { entries = e1 ∷ e2 ∷ []; eof = true } }

unfoldable pub nfsproc3_fsinfo : FsinfoRes
nfsproc3_fsinfo = record { status = nfs3_ok; wtmax = 4096; maxfilesize = 4096 }

-- The file handle that MNT hands out, with the status MNT3_OK.
unfoldable pub mountproc3_mnt : World → Outcome Bytes
mountproc3_mnt W = do fh3 ← mk_root_fh3 W; ok fh3.bytes
