-- ===== src/Xdr/Lists.antt =====
-- nfstypes/nfs_xdr.go: the lists of entries, which are linked by pointers. `rounds` bounds the entries that
-- are read.
use go_nfsd.Prelude.{ℕ, zero, suc, true, false, List, [], ◌∷◌, if◌then◌else◌}
use go_nfsd.External.Xdr.{Xdr}
use go_nfsd.Programs.{pure, ◌>>=◌, out_of_rounds, gets}
use go_nfsd.Nfstypes.Replies.{Entry3, Dirlist3}
use go_nfsd.Nfstypes.Procs.{Entryplus3, Dirlistplus3}
use go_nfsd.Nfstypes.Results.{ReaddirResok, ReaddirplusResok}
use go_nfsd.Nfstypes.Zeros.{zero_entry3, zero_entryplus3}
use go_nfsd.Xdr.{XdrProg, xdr_uint64, xdr_boolean, xdr_filename3, xdr_verf}
use go_nfsd.Xdr.Attributes.{xdr_post_op_attr, xdr_post_op_fh3}

module _ (X : Xdr) where
  -- The list that starts at a pointer. Each entry is written with what follows it, behind a flag.
  unfoldable pub write_list : {E : Type 0} → (E → XdrProg X E) → List E → XdrProg X (List E)
  write_list f [] = do opted ← xdr_boolean X false; pure []
  write_list f (e ∷ es) = do
    opted ← xdr_boolean X true
    e ← f e
    es ← write_list f es
    pure (e ∷ es)

  -- `new(Entry3)` is `zero`, and a pointer is left as it is behind a flag that is not set.
  unfoldable pub read_list : {E : Type 0} → (E → XdrProg X E) → E → ℕ → List E → XdrProg X (List E)
  read_list f zero_e zero es = out_of_rounds
  read_list f zero_e (suc n) es =
      let rest = read_list f zero_e n [] in
      xdr_boolean X false >>= λ opted.
      if opted then (f zero_e >>= λ e. rest >>= λ more. pure (e ∷ more)) else pure es

  unfoldable pub xdr_list : {E : Type 0} → (E → XdrProg X E) → E → ℕ → List E → XdrProg X (List E)
  xdr_list f zero_e rounds es = do
    writing ← gets X.encoding
    es ← if writing then write_list f es else pure es
    reading ← gets X.decoding
    if reading then read_list f zero_e rounds es else pure es

  -- An entry, without the one after it.
  unfoldable pub xdr_entry3 : Entry3 → XdrProg X Entry3
  xdr_entry3 v = do
    fileid ← xdr_uint64 X v.fileid
    name ← xdr_filename3 X v.name
    cookie ← xdr_uint64 X v.cookie
    pure (record { fileid = fileid; name = name; cookie = cookie })

  -- An entry, without the one after it.
  unfoldable pub xdr_entryplus3 : Entryplus3 → XdrProg X Entryplus3
  xdr_entryplus3 v = do
    fileid ← xdr_uint64 X v.fileid
    name ← xdr_filename3 X v.name
    cookie ← xdr_uint64 X v.cookie
    name_attributes ← xdr_post_op_attr X v.name_attributes
    name_handle ← xdr_post_op_fh3 X v.name_handle
    pure (record {
      fileid = fileid;
      name = name;
      cookie = cookie;
      name_attributes = name_attributes;
      name_handle = name_handle;
    })

  unfoldable pub xdr_dirlist3 : ℕ → Dirlist3 → XdrProg X Dirlist3
  xdr_dirlist3 rounds v = do
    entries ← xdr_list xdr_entry3 zero_entry3 rounds v.entries
    eof ← xdr_boolean X v.eof
    pure (record { entries = entries; eof = eof })

  unfoldable pub xdr_dirlistplus3 : ℕ → Dirlistplus3 → XdrProg X Dirlistplus3
  xdr_dirlistplus3 rounds v = do
    entries ← xdr_list xdr_entryplus3 zero_entryplus3 rounds v.entries
    eof ← xdr_boolean X v.eof
    pure (record { entries = entries; eof = eof })

  unfoldable pub xdr_readdir_resok : ℕ → ReaddirResok → XdrProg X ReaddirResok
  xdr_readdir_resok rounds v = do
    dir_attributes ← xdr_post_op_attr X v.dir_attributes
    cookieverf ← xdr_verf X v.cookieverf
    reply ← xdr_dirlist3 rounds v.reply
    pure (record { dir_attributes = dir_attributes; cookieverf = cookieverf; reply = reply })

  unfoldable pub xdr_readdirplus_resok : ℕ → ReaddirplusResok → XdrProg X ReaddirplusResok
  xdr_readdirplus_resok rounds v = do
    dir_attributes ← xdr_post_op_attr X v.dir_attributes
    cookieverf ← xdr_verf X v.cookieverf
    reply ← xdr_dirlistplus3 rounds v.reply
    pure (record { dir_attributes = dir_attributes; cookieverf = cookieverf; reply = reply })
