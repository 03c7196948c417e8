-- ===== src/Nfs/Wire.antt =====
-- nfstypes/nfs_xdr.go: NFS_PROGRAM_NFS_V3_regs, the table of the wrapper's methods by number, and the messages
-- that a client and the server write.
pub mod Arrival
pub mod Delivery
pub mod Locks
use go_nfsd.Prelude.{ℕ, ◌==◌, List, [], ◌∷◌, if◌then◌else◌}
use go_nfsd.External.Xdr.{Xdr}
use go_nfsd.Programs.{pure, ◌>>=◌}
use go_nfsd.Nfstypes.{Nfstime3}
use go_nfsd.Xdr.{XdrProg}
use go_nfsd.Xdr.Args.{
  xdr_getattr_args, xdr_setattr_args, xdr_lookup_args, xdr_access_args, xdr_readlink_args,
  xdr_read_args, xdr_write_args, xdr_create_args, xdr_mkdir_args, xdr_symlink_args, xdr_mknod_args,
  xdr_remove_args, xdr_rename_args, xdr_link_args, xdr_readdir_args, xdr_readdirplus_args,
  xdr_fsstat_args, xdr_fsinfo_args, xdr_pathconf_args, xdr_commit_args,
}
use go_nfsd.Nfs.Requests.{
  Request, Reply, null, getattr, setattr, lookup, access, readlink, read_file, write_file, create,
  mkdir, symlink, mknod, remove, rmdir, rename, link, readdir, readdirplus, fsstat, fsinfo,
  pathconf, commit_file, void, attr_reply, setattr_reply, lookup_reply, access_reply, link_reply,
  read_reply, write_reply, new_reply, mknod_reply, removed_reply, renamed_reply, linked_reply,
  fsstat_reply, committed_reply, list_reply, list_plus_reply, info_reply, conf_reply,
}
use go_nfsd.Nfs.Session.{NfsProg}
use go_nfsd.External.World.{World}
use go_nfsd.Nfs.Results.{
  getattr_result, setattr_result, lookup_result, access_result, readlink_result, read_result,
  write_result, create_result, mknod_result, remove_result, rename_result, link_result,
  fsstat_result, commit_result, readdir_result, readdirplus_result, fsinfo_result, pathconf_result,
}
use go_nfsd.Nfs.Methods.{
  Answer, no_procedure, wrapper_null, wrapper_getattr, wrapper_setattr, wrapper_lookup,
  wrapper_access, wrapper_readlink, wrapper_read, wrapper_write, wrapper_create, wrapper_mkdir,
  wrapper_symlink, wrapper_mknod, wrapper_remove, wrapper_rmdir, wrapper_rename, wrapper_link,
  wrapper_readdir, wrapper_readdirplus, wrapper_fsstat, wrapper_fsinfo, wrapper_pathconf,
  wrapper_commit,
}
use go_nfsd.Xdr.Results.{
  xdr_getattr_res, xdr_setattr_res, xdr_lookup_res, xdr_access_res, xdr_readlink_res, xdr_read_res,
  xdr_write_res, xdr_create_res, xdr_mknod_res, xdr_remove_res, xdr_rename_res, xdr_link_res,
  xdr_fsstat_res, xdr_commit_res, xdr_readdir_res, xdr_readdirplus_res, xdr_fsinfo_res,
  xdr_pathconf_res,
}

module _ (W : World) (X : Xdr) where
  -- The table of procedures.
  unfoldable pub serve_call : ℕ → Nfstime3 → ℕ → X.XdrState → NfsProg W Answer
  serve_call rounds now proc args =
      if proc == 0
      then wrapper_null W X rounds now args
      else if proc == 1
      then wrapper_getattr W X rounds now args
      else if proc == 2
      then wrapper_setattr W X rounds now args
      else if proc == 3
      then wrapper_lookup W X rounds now args
      else if proc == 4
      then wrapper_access W X rounds now args
      else if proc == 5
      then wrapper_readlink W X rounds now args
      else if proc == 6
      then wrapper_read W X rounds now args
      else if proc == 7
      then wrapper_write W X rounds now args
      else if proc == 8
      then wrapper_create W X rounds now args
      else if proc == 9
      then wrapper_mkdir W X rounds now args
      else if proc == 10
      then wrapper_symlink W X rounds now args
      else if proc == 11
      then wrapper_mknod W X rounds now args
      else if proc == 12
      then wrapper_remove W X rounds now args
      else if proc == 13
      then wrapper_rmdir W X rounds now args
      else if proc == 14
      then wrapper_rename W X rounds now args
      else if proc == 15
      then wrapper_link W X rounds now args
      else if proc == 16
      then wrapper_readdir W X rounds now args
      else if proc == 17
      then wrapper_readdirplus W X rounds now args
      else if proc == 18
      then wrapper_fsstat W X rounds now args
      else if proc == 19
      then wrapper_fsinfo W X rounds now args
      else if proc == 20
      then wrapper_pathconf W X rounds now args
      else if proc == 21
      then wrapper_commit W X rounds now args
      else pure no_procedure

  unfoldable pub serve_calls : ℕ → List (Nfstime3 × ℕ × X.XdrState) → NfsProg W (List Answer)
  serve_calls rounds [] = pure []
  serve_calls rounds ((now, proc, args) ∷ calls) = do
    a ← serve_call rounds now proc args
    rest ← serve_calls rounds calls
    pure (a ∷ rest)

module _ (X : Xdr) where
  abbrev written : {A : Type 0} → (A → XdrProg X A) → A → XdrProg X (Unit {0})
  written f v = f v >>= λ _. pure tt

  -- A client writes the arguments of a call.
  unfoldable pub write_args : Request → XdrProg X (Unit {0})
  write_args null = pure tt
  write_args (getattr a) = written (xdr_getattr_args X) a
  write_args (setattr a) = written (xdr_setattr_args X) a
  write_args (lookup a) = written (xdr_lookup_args X) a
  write_args (access a) = written (xdr_access_args X) a
  write_args (readlink a) = written (xdr_readlink_args X) a
  write_args (read_file a) = written (xdr_read_args X) a
  write_args (write_file a) = written (xdr_write_args X) a
  write_args (create a) = written (xdr_create_args X) a
  write_args (mkdir a) = written (xdr_mkdir_args X) a
  write_args (symlink a) = written (xdr_symlink_args X) a
  write_args (mknod a) = written (xdr_mknod_args X) a
  write_args (remove a) = written (xdr_remove_args X) a
  write_args (rmdir a) = written (xdr_remove_args X) a
  write_args (rename a) = written (xdr_rename_args X) a
  write_args (link a) = written (xdr_link_args X) a
  write_args (readdir a) = written (xdr_readdir_args X) a
  write_args (readdirplus a) = written (xdr_readdirplus_args X) a
  write_args (fsstat a) = written (xdr_fsstat_args X) a
  write_args (fsinfo a) = written (xdr_fsinfo_args X) a
  write_args (pathconf a) = written (xdr_pathconf_args X) a
  write_args (commit_file a) = written (xdr_commit_args X) a

  -- The reply is written by the `Xdr` of its result.
  unfoldable pub send_reply : ℕ → Reply → XdrProg X (Unit {0})
  send_reply rounds void = pure tt
  send_reply rounds (attr_reply r) = written (xdr_getattr_res X) (getattr_result r)
  send_reply rounds (setattr_reply r) = written (xdr_setattr_res X) (setattr_result r)
  send_reply rounds (lookup_reply r) = written (xdr_lookup_res X) (lookup_result r)
  send_reply rounds (access_reply r) = written (xdr_access_res X) (access_result r)
  send_reply rounds (link_reply r) = written (xdr_readlink_res X) (readlink_result r)
  send_reply rounds (read_reply r) = written (xdr_read_res X) (read_result r)
  send_reply rounds (write_reply r) = written (xdr_write_res X) (write_result r)
  send_reply rounds (new_reply r) = written (xdr_create_res X) (create_result r)
  send_reply rounds (mknod_reply r) = written (xdr_mknod_res X) (mknod_result r)
  send_reply rounds (removed_reply r) = written (xdr_remove_res X) (remove_result r)
  send_reply rounds (renamed_reply r) = written (xdr_rename_res X) (rename_result r)
  send_reply rounds (linked_reply r) = written (xdr_link_res X) (link_result r)
  send_reply rounds (fsstat_reply r) = written (xdr_fsstat_res X) (fsstat_result r)
  send_reply rounds (committed_reply r) = written (xdr_commit_res X) (commit_result r)
  send_reply rounds (list_reply r) = written (xdr_readdir_res X rounds) (readdir_result r)
  send_reply rounds (list_plus_reply r) =
      written (xdr_readdirplus_res X rounds) (readdirplus_result r)
  send_reply rounds (info_reply r) = written (xdr_fsinfo_res X) (fsinfo_result r)
  send_reply rounds (conf_reply r) = written (xdr_pathconf_res X) (pathconf_result r)

unfoldable pub proc_number : Request → ℕ
proc_number null = 0
proc_number (getattr a) = 1
proc_number (setattr a) = 2
proc_number (lookup a) = 3
proc_number (access a) = 4
proc_number (readlink a) = 5
proc_number (read_file a) = 6
proc_number (write_file a) = 7
proc_number (create a) = 8
proc_number (mkdir a) = 9
proc_number (symlink a) = 10
proc_number (mknod a) = 11
proc_number (remove a) = 12
proc_number (rmdir a) = 13
proc_number (rename a) = 14
proc_number (link a) = 15
proc_number (readdir a) = 16
proc_number (readdirplus a) = 17
proc_number (fsstat a) = 18
proc_number (fsinfo a) = 19
proc_number (pathconf a) = 20
proc_number (commit_file a) = 21
