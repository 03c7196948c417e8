-- ===== src/Nfs/Requests.antt =====
-- nfstypes/nfs_xdr.go, NFS_PROGRAM_NFS_V3_handler: the procedures of the full server as requests, one
-- after the other. The clock reads a time for each request.
use go_nfsd.Prelude.{ℕ, List, [], ◌∷◌}
use go_nfsd.External.World.{World}
use go_nfsd.Programs.{◌>>=◌, pure}
use go_nfsd.Nfstypes.{Nfstime3}
use go_nfsd.Nfstypes.Replies.{
  GetattrArgs, SetattrArgs, LookupArgs, ReadArgs, WriteArgs, CommitArgs, GetattrRes, ReadRes,
  StatusRes, AccessRes, ReaddirRes,
}
use go_nfsd.Nfstypes.Procs.{
  ReadlinkArgs, CreateArgs, MkdirArgs, SymlinkArgs, RemoveArgs, RenameArgs, ReaddirArgs,
  ReaddirplusArgs, ReadlinkRes, CreateRes, ReaddirplusRes, FsinfoAllRes, PathconfRes, LookupAttrRes,
  SetattrWccRes, WriteWccRes,
}
use go_nfsd.Nfstypes.Args.{AccessArgs, MknodArgs, LinkArgs, FsstatArgs, FsinfoArgs, PathconfArgs}
use go_nfsd.Nfs.Session.{NfsProg}
use go_nfsd.Nfs.Files.{
  nfsproc3_getattr, nfsproc3_setattr, nfsproc3_read, nfsproc3_readlink, nfsproc3_write,
  nfsproc3_commit,
}
use go_nfsd.Nfs.Creating.{nfsproc3_lookup, nfsproc3_create, nfsproc3_mkdir, nfsproc3_symlink}
use go_nfsd.Nfs.Removing.{nfsproc3_remove, nfsproc3_rmdir}
use go_nfsd.Nfs.Renaming.{nfsproc3_rename}
use go_nfsd.Nfs.Listing.{
  nfsproc3_readdir, nfsproc3_readdirplus, nfsproc3_fsinfo, nfsproc3_pathconf, nfsproc3_access,
  not_supported,
}

pub data Request : Type 0 where
  null : Request
  getattr : GetattrArgs → Request
  setattr : SetattrArgs → Request
  lookup : LookupArgs → Request
  access : AccessArgs → Request
  readlink : ReadlinkArgs → Request
  read_file : ReadArgs → Request
  write_file : WriteArgs → Request
  create : CreateArgs → Request
  mkdir : MkdirArgs → Request
  symlink : SymlinkArgs → Request
  mknod : MknodArgs → Request
  remove : RemoveArgs → Request
  rmdir : RemoveArgs → Request
  rename : RenameArgs → Request
  link : LinkArgs → Request
  readdir : ReaddirArgs → Request
  readdirplus : ReaddirplusArgs → Request
  fsstat : FsstatArgs → Request
  fsinfo : FsinfoArgs → Request
  pathconf : PathconfArgs → Request
  commit_file : CommitArgs → Request

pub data Reply : Type 0 where
  void : Reply
  attr_reply : GetattrRes → Reply
  setattr_reply : SetattrWccRes → Reply
  lookup_reply : LookupAttrRes → Reply
  access_reply : AccessRes → Reply
  link_reply : ReadlinkRes → Reply
  read_reply : ReadRes → Reply
  write_reply : WriteWccRes → Reply
  new_reply : CreateRes → Reply
  mknod_reply : StatusRes → Reply
  removed_reply : StatusRes → Reply
  renamed_reply : StatusRes → Reply
  linked_reply : StatusRes → Reply
  fsstat_reply : StatusRes → Reply
  committed_reply : StatusRes → Reply
  list_reply : ReaddirRes → Reply
  list_plus_reply : ReaddirplusRes → Reply
  info_reply : FsinfoAllRes → Reply
  conf_reply : PathconfRes → Reply

module _ (W : World) where
  abbrev answer : {A : Type 0} → (A → Reply) → NfsProg W A → NfsProg W Reply
  answer f m = m >>= λ r. pure (f r)

  unfoldable pub handle : ℕ → Nfstime3 → Request → NfsProg W Reply
  handle rounds now null = pure void
  handle rounds now (getattr a) = answer attr_reply (nfsproc3_getattr W a)
  handle rounds now (setattr a) = answer setattr_reply (nfsproc3_setattr W rounds now a)
  handle rounds now (lookup a) = answer lookup_reply (nfsproc3_lookup W rounds a)
  handle rounds now (access a) = answer access_reply (nfsproc3_access W)
  handle rounds now (readlink a) = answer link_reply (nfsproc3_readlink W a)
  handle rounds now (read_file a) = answer read_reply (nfsproc3_read W a)
  handle rounds now (write_file a) = answer write_reply (nfsproc3_write W rounds a)
  handle rounds now (create a) = answer new_reply (nfsproc3_create W rounds now a)
  handle rounds now (mkdir a) = answer new_reply (nfsproc3_mkdir W rounds now a)
  handle rounds now (symlink a) = answer new_reply (nfsproc3_symlink W rounds now a)
  handle rounds now (mknod a) = answer mknod_reply (not_supported W)
  handle rounds now (remove a) = answer removed_reply (nfsproc3_remove W rounds a)
  handle rounds now (rmdir a) = answer removed_reply (nfsproc3_rmdir W rounds a)
  handle rounds now (rename a) = answer renamed_reply (nfsproc3_rename W rounds a)
  handle rounds now (link a) = answer linked_reply (not_supported W)
  handle rounds now (readdir a) = answer list_reply (nfsproc3_readdir W a)
  handle rounds now (readdirplus a) = answer list_plus_reply (nfsproc3_readdirplus W a)
  handle rounds now (fsstat a) = answer fsstat_reply (not_supported W)
  handle rounds now (fsinfo a) = answer info_reply (nfsproc3_fsinfo W)
  handle rounds now (pathconf a) = answer conf_reply (nfsproc3_pathconf W)
  handle rounds now (commit_file a) = answer committed_reply (nfsproc3_commit W a)

  unfoldable pub serve_requests : ℕ → List (Nfstime3 × Request) → NfsProg W (List Reply)
  serve_requests rounds [] = pure []
  serve_requests rounds ((now, q) ∷ qs) = do
    r ← handle rounds now q
    rest ← serve_requests rounds qs
    pure (r ∷ rest)
