-- ===== src/Nfs/Methods.antt =====
-- nfstypes/nfs_xdr.go: NFS_PROGRAM_NFS_V3_handler_wrapper, over the full server.
use go_nfsd.Prelude.{ℕ, if◌then◌else◌}
use go_nfsd.External.Xdr.{Xdr}
use go_nfsd.Programs.{crash, out_of_rounds, Result, pure, ◌>>=◌, returns, panics, waits, unfinished}
use go_nfsd.Nfstypes.{Nfstime3}
use go_nfsd.Nfstypes.Zeros.{
  zero_getattr_args, zero_setattr_args, zero_lookup_args, zero_access_args, zero_readlink_args,
  zero_read_args, zero_write_args, zero_create_args, zero_mkdir_args, zero_symlink_args,
  zero_mknod_args, zero_remove_args, zero_rename_args, zero_link_args, zero_readdir_args,
  zero_readdirplus_args, zero_fsstat_args, zero_fsinfo_args, zero_pathconf_args, zero_commit_args,
}
use go_nfsd.Xdr.{XdrProg}
use go_nfsd.Xdr.Args.{
  xdr_getattr_args, xdr_setattr_args, xdr_lookup_args, xdr_access_args, xdr_readlink_args,
  xdr_read_args, xdr_write_args, xdr_create_args, xdr_mkdir_args, xdr_symlink_args, xdr_mknod_args,
  xdr_remove_args, xdr_rename_args, xdr_link_args, xdr_readdir_args, xdr_readdirplus_args,
  xdr_fsstat_args, xdr_fsinfo_args, xdr_pathconf_args, xdr_commit_args,
}
use go_nfsd.Nfs.Requests.{
  Reply, null, handle, getattr, setattr, lookup, access, readlink, read_file, write_file, create,
  mkdir, symlink, mknod, remove, rmdir, rename, link, readdir, readdirplus, fsstat, fsinfo,
  pathconf, commit_file,
}
use go_nfsd.Nfs.Session.{NfsProg}
use go_nfsd.External.World.{World}

-- What the RPC server gets for a call: a reply, that the arguments were not read, or that no procedure has
-- the number.
pub data Answer : Type 0 where
  replied : Reply → Answer
  bad_args : Answer
  no_procedure : Answer

module _ (W : World) (X : Xdr) where
  unfoldable pub serve_read :
      {A : Type 0} → (A → NfsProg W Reply) → Result (A × X.XdrState) → NfsProg W Answer
  serve_read h (returns (args, xs)) =
      if X.failed xs then pure bad_args else (h args >>= λ out. pure (replied out))
  serve_read h panics = crash
  serve_read h waits = λ s. waits
  serve_read h unfinished = out_of_rounds

  -- A method of the wrapper: it reads its arguments, and calls the handler if that did not fail.
  unfoldable pub wrapped :
      {A : Type 0} → (A → XdrProg X A) → A → (A → NfsProg W Reply) → X.XdrState → NfsProg W Answer
  unfolding serve_read
  wrapped read zero_in h args = serve_read h (read zero_in args)

  unfoldable pub wrapper_null : ℕ → Nfstime3 → X.XdrState → NfsProg W Answer
  wrapper_null rounds now args = handle W rounds now null >>= λ out. pure (replied out)

  unfoldable pub wrapper_getattr : ℕ → Nfstime3 → X.XdrState → NfsProg W Answer
  wrapper_getattr rounds now args =
      wrapped (xdr_getattr_args X) zero_getattr_args (λ a. handle W rounds now (getattr a)) args

  unfoldable pub wrapper_setattr : ℕ → Nfstime3 → X.XdrState → NfsProg W Answer
  wrapper_setattr rounds now args =
      wrapped (xdr_setattr_args X) zero_setattr_args (λ a. handle W rounds now (setattr a)) args

  unfoldable pub wrapper_lookup : ℕ → Nfstime3 → X.XdrState → NfsProg W Answer
  wrapper_lookup rounds now args =
      wrapped (xdr_lookup_args X) zero_lookup_args (λ a. handle W rounds now (lookup a)) args

  unfoldable pub wrapper_access : ℕ → Nfstime3 → X.XdrState → NfsProg W Answer
  wrapper_access rounds now args =
      wrapped (xdr_access_args X) zero_access_args (λ a. handle W rounds now (access a)) args

  unfoldable pub wrapper_readlink : ℕ → Nfstime3 → X.XdrState → NfsProg W Answer
  wrapper_readlink rounds now args =
      wrapped (xdr_readlink_args X) zero_readlink_args (λ a. handle W rounds now (readlink a)) args

  unfoldable pub wrapper_read : ℕ → Nfstime3 → X.XdrState → NfsProg W Answer
  wrapper_read rounds now args =
      wrapped (xdr_read_args X) zero_read_args (λ a. handle W rounds now (read_file a)) args

  unfoldable pub wrapper_write : ℕ → Nfstime3 → X.XdrState → NfsProg W Answer
  wrapper_write rounds now args =
      wrapped (xdr_write_args X) zero_write_args (λ a. handle W rounds now (write_file a)) args

  unfoldable pub wrapper_create : ℕ → Nfstime3 → X.XdrState → NfsProg W Answer
  wrapper_create rounds now args =
      wrapped (xdr_create_args X) zero_create_args (λ a. handle W rounds now (create a)) args

  unfoldable pub wrapper_mkdir : ℕ → Nfstime3 → X.XdrState → NfsProg W Answer
  wrapper_mkdir rounds now args =
      wrapped (xdr_mkdir_args X) zero_mkdir_args (λ a. handle W rounds now (mkdir a)) args

  unfoldable pub wrapper_symlink : ℕ → Nfstime3 → X.XdrState → NfsProg W Answer
  wrapper_symlink rounds now args =
      wrapped (xdr_symlink_args X) zero_symlink_args (λ a. handle W rounds now (symlink a)) args

  unfoldable pub wrapper_mknod : ℕ → Nfstime3 → X.XdrState → NfsProg W Answer
  wrapper_mknod rounds now args =
      wrapped (xdr_mknod_args X) zero_mknod_args (λ a. handle W rounds now (mknod a)) args

  unfoldable pub wrapper_remove : ℕ → Nfstime3 → X.XdrState → NfsProg W Answer
  wrapper_remove rounds now args =
      wrapped (xdr_remove_args X) zero_remove_args (λ a. handle W rounds now (remove a)) args

  unfoldable pub wrapper_rmdir : ℕ → Nfstime3 → X.XdrState → NfsProg W Answer
  wrapper_rmdir rounds now args =
      wrapped (xdr_remove_args X) zero_remove_args (λ a. handle W rounds now (rmdir a)) args

  unfoldable pub wrapper_rename : ℕ → Nfstime3 → X.XdrState → NfsProg W Answer
  wrapper_rename rounds now args =
      wrapped (xdr_rename_args X) zero_rename_args (λ a. handle W rounds now (rename a)) args

  unfoldable pub wrapper_link : ℕ → Nfstime3 → X.XdrState → NfsProg W Answer
  wrapper_link rounds now args =
      wrapped (xdr_link_args X) zero_link_args (λ a. handle W rounds now (link a)) args

  unfoldable pub wrapper_readdir : ℕ → Nfstime3 → X.XdrState → NfsProg W Answer
  wrapper_readdir rounds now args =
      wrapped (xdr_readdir_args X) zero_readdir_args (λ a. handle W rounds now (readdir a)) args

  unfoldable pub wrapper_readdirplus : ℕ → Nfstime3 → X.XdrState → NfsProg W Answer
  wrapper_readdirplus rounds now args =
      wrapped (xdr_readdirplus_args X) zero_readdirplus_args
        (λ a. handle W rounds now (readdirplus a)) args

  unfoldable pub wrapper_fsstat : ℕ → Nfstime3 → X.XdrState → NfsProg W Answer
  wrapper_fsstat rounds now args =
      wrapped (xdr_fsstat_args X) zero_fsstat_args (λ a. handle W rounds now (fsstat a)) args

  unfoldable pub wrapper_fsinfo : ℕ → Nfstime3 → X.XdrState → NfsProg W Answer
  wrapper_fsinfo rounds now args =
      wrapped (xdr_fsinfo_args X) zero_fsinfo_args (λ a. handle W rounds now (fsinfo a)) args

  unfoldable pub wrapper_pathconf : ℕ → Nfstime3 → X.XdrState → NfsProg W Answer
  wrapper_pathconf rounds now args =
      wrapped (xdr_pathconf_args X) zero_pathconf_args (λ a. handle W rounds now (pathconf a)) args

  unfoldable pub wrapper_commit : ℕ → Nfstime3 → X.XdrState → NfsProg W Answer
  wrapper_commit rounds now args =
      wrapped (xdr_commit_args X) zero_commit_args (λ a. handle W rounds now (commit_file a)) args
