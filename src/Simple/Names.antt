-- ===== src/Simple/Names.antt =====
-- LOOKUP and READDIR of simple/ops.go: the two names of the directory.
use go_nfsd.Prelude.{
  ℕ, ◌≤◌, ◌≡◌, ◌≢◌, refl, ap, ◌∙◌, true, List, [], ◌∷◌, ok, IsU64, name_eq_sound, arith,
}
use go_nfsd.External.World.{World, WorldLaws}
use go_nfsd.External.Marshal.Runs.{encode_one, decode_one}
use go_nfsd.Nfstypes.{Bytes, NfsFh3, nfs3_ok, nfs3err_noent}
use go_nfsd.Nfstypes.Replies.{LookupArgs, Entry3, zero_lookup}
use go_nfsd.Simple.Layout.{make_fh, make_fh3, n_inode}
use go_nfsd.Simple.Ops.{fh2ino, valid_inum}
use go_nfsd.Simple.Procs.{name_a, name_b, lookup_inum, nfsproc3_lookup, nfsproc3_readdir}

-- LOOKUP of the entry's name succeeds, with a handle that later calls read as the entry's number, and
-- that number is one that they accept.
abbrev pub Found : World → Entry3 → Type 0
Found W e =
    (args : LookupArgs)
    → args.what.name ≡ e.name
    → (fh : NfsFh3) × (nfsproc3_lookup W args ≡ ok (record { status = nfs3_ok; object = fh }))
      × (fh2ino W fh ≡ ok e.fileid)
      × (valid_inum W e.fileid ≡ true)

abbrev pub AllFound : World → List Entry3 → Type 0
AllFound W [] = Unit
AllFound W (e ∷ es) = Found W e × AllFound W es

module _ (W : World) (H : WorldLaws W) where
  -- A handle for a number, as LOOKUP makes it, and as the other calls read it.
  handle :
      (inum : ℕ)
      → IsU64 inum
      → (fh : NfsFh3) × (make_fh3 W (record { ino = inum }) ≡ ok fh) × (fh2ino W fh ≡ ok inum)
  unfolding make_fh3 fh2ino make_fh
  handle inum h =
      let (e, run, done) = encode_one H.marshal 16 inum (omega arith) in
      let (d, run') = decode_one H.marshal 16 inum h in
      (record { bytes = W.finish e }, rw run, rw (done, run'))

  valid_lem : (inum : ℕ) → 2 ≤ inum → inum ≤ 3 → valid_inum W inum ≡ true
  unfolding valid_inum n_inode
  valid_lem inum low high = ground (arith, H.rootinum_one, H.inodeblk_large)

  found :
      (inum : ℕ) (name : Bytes)
      → 2 ≤ inum
      → inum ≤ 3
      → lookup_inum name ≡ inum
      → (args : LookupArgs) → args.what.name ≡ name
      → (fh : NfsFh3) × (nfsproc3_lookup W args ≡ ok (record { status = nfs3_ok; object = fh }))
        × (fh2ino W fh ≡ ok inum)
        × (valid_inum W inum ≡ true)
  unfolding nfsproc3_lookup
  found inum name low high is args same =
      let (fh, made, read) = handle inum (omega arith) in
      let at : lookup_inum args.what.name ≡ inum = ap lookup_inum same ∙ is in
      (fh, rw (at, valid_lem inum low high, made), read, valid_lem inum low high)

  -- Every entry that READDIR lists is found by LOOKUP, under the number that it lists.
  pub readdir_found : AllFound W nfsproc3_readdir.reply.entries
  unfolding nfsproc3_readdir lookup_inum
  readdir_found = (
    found 2 name_a (omega arith) (omega arith) refl,
    (found 3 name_b (omega arith) (omega arith) refl, tt),
  )

  -- LOOKUP of any other name fails with NOENT.
  pub lookup_noent :
      (args : LookupArgs)
      → args.what.name ≢ name_a
      → args.what.name ≢ name_b
      → nfsproc3_lookup W args ≡ ok (record zero_lookup { status = nfs3err_noent })
  unfolding nfsproc3_lookup lookup_inum valid_inum
  lookup_noent args a b =
      ground (arith, name_eq_sound args.what.name name_a, name_eq_sound args.what.name name_b)
