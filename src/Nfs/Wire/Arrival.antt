-- ===== src/Nfs/Wire/Arrival.antt =====
-- nfstypes/nfs_xdr.go: a call whose arguments were written by a client is served as the request.
use mathlib.Core.List.{append-nil}
use go_nfsd.Prelude.{ℕ, ◌≡◌, refl, [], subst}
use go_nfsd.External.Xdr.{Xdr, XdrLaws}
use go_nfsd.Programs.{◌>>=◌, pure, returns}
use go_nfsd.Nfstypes.{Bytes, Nfstime3}
use go_nfsd.Nfstypes.Zeros.{
  zero_getattr_args, zero_setattr_args, zero_lookup_args, zero_access_args, zero_readlink_args,
  zero_read_args, zero_write_args, zero_create_args, zero_mkdir_args, zero_symlink_args,
  zero_mknod_args, zero_remove_args, zero_rename_args, zero_link_args, zero_readdir_args,
  zero_readdirplus_args, zero_fsstat_args, zero_fsinfo_args, zero_pathconf_args, zero_commit_args,
}
use go_nfsd.Xdr.{XdrProg}
use go_nfsd.Xdr.Sends.{Travels}
use go_nfsd.Xdr.Args.{
  xdr_getattr_args, xdr_setattr_args, xdr_lookup_args, xdr_access_args, xdr_readlink_args,
  xdr_read_args, xdr_write_args, xdr_create_args, xdr_mkdir_args, xdr_symlink_args, xdr_mknod_args,
  xdr_remove_args, xdr_rename_args, xdr_link_args, xdr_readdir_args, xdr_readdirplus_args,
  xdr_fsstat_args, xdr_fsinfo_args, xdr_pathconf_args, xdr_commit_args,
}
use go_nfsd.Xdr.Travels.ArgsFit.{
  FitsGetattrArgs, FitsSetattrArgs, FitsLookupArgs, FitsAccessArgs, FitsReadlinkArgs, FitsReadArgs,
  FitsWriteArgs, FitsCreateArgs, FitsMkdirArgs, FitsSymlinkArgs, FitsMknodArgs, FitsRemoveArgs,
  FitsRenameArgs, FitsLinkArgs, FitsReaddirArgs, FitsReaddirplusArgs, FitsFsstatArgs,
  FitsFsinfoArgs, FitsPathconfArgs, FitsCommitArgs,
}
use go_nfsd.Xdr.Travels.Args.{
  getattr_args-Travels, setattr_args-Travels, lookup_args-Travels, access_args-Travels,
  readlink_args-Travels, read_args-Travels, write_args-Travels, create_args-Travels,
  mkdir_args-Travels, symlink_args-Travels, mknod_args-Travels, remove_args-Travels,
  rename_args-Travels, link_args-Travels, readdir_args-Travels, readdirplus_args-Travels,
  fsstat_args-Travels, fsinfo_args-Travels, pathconf_args-Travels, commit_args-Travels,
}
use go_nfsd.Nfs.Requests.{
  Request, Reply, null, handle, getattr, setattr, lookup, access, readlink, read_file, write_file,
  create, mkdir, symlink, mknod, remove, rmdir, rename, link, readdir, readdirplus, fsstat, fsinfo,
  pathconf, commit_file,
}
use go_nfsd.Nfs.Session.{Session, NfsProg}
use go_nfsd.External.World.{World}
use go_nfsd.Nfs.Wire.{serve_call, write_args, proc_number}
use go_nfsd.Nfs.Methods.{
  replied, wrapped, serve_read, wrapper_null, wrapper_getattr, wrapper_setattr, wrapper_lookup,
  wrapper_access, wrapper_readlink, wrapper_read, wrapper_write, wrapper_create, wrapper_mkdir,
  wrapper_symlink, wrapper_mknod, wrapper_remove, wrapper_rmdir, wrapper_rename, wrapper_link,
  wrapper_readdir, wrapper_readdirplus, wrapper_fsstat, wrapper_fsinfo, wrapper_pathconf,
  wrapper_commit,
}

-- The arguments of the request fit in a message.
abbrev pub FitsRequest : Request → Type 0
FitsRequest null = Unit
FitsRequest (getattr a) = FitsGetattrArgs a
FitsRequest (setattr a) = FitsSetattrArgs a
FitsRequest (lookup a) = FitsLookupArgs a
FitsRequest (access a) = FitsAccessArgs a
FitsRequest (readlink a) = FitsReadlinkArgs a
FitsRequest (read_file a) = FitsReadArgs a
FitsRequest (write_file a) = FitsWriteArgs a
FitsRequest (create a) = FitsCreateArgs a
FitsRequest (mkdir a) = FitsMkdirArgs a
FitsRequest (symlink a) = FitsSymlinkArgs a
FitsRequest (mknod a) = FitsMknodArgs a
FitsRequest (remove a) = FitsRemoveArgs a
FitsRequest (rmdir a) = FitsRemoveArgs a
FitsRequest (rename a) = FitsRenameArgs a
FitsRequest (link a) = FitsLinkArgs a
FitsRequest (readdir a) = FitsReaddirArgs a
FitsRequest (readdirplus a) = FitsReaddirplusArgs a
FitsRequest (fsstat a) = FitsFsstatArgs a
FitsRequest (fsinfo a) = FitsFsinfoArgs a
FitsRequest (pathconf a) = FitsPathconfArgs a
FitsRequest (commit_file a) = FitsCommitArgs a

module _ (W : World) (X : Xdr) (L : XdrLaws X) where
  -- The message `b` has arguments that a method reads.
  wrapped_call :
      {A : Type 0} (f : A → XdrProg X A) (z v : A) (h : A → NfsProg W Reply)
      → Travels X L f z v
      → (b : Bytes) × ((f v >>= λ _. pure tt) (L.writer []) ≡ returns (tt, L.writer b))
        × ((s : Session W)
            → wrapped W X f z h (L.reader b) s ≡ (h v >>= λ out. pure (replied out)) s)
  unfolding wrapped serve_read ◌>>=◌ pure
  wrapped_call f z v h t =
      let read =
        subst (λ b. f z (L.reader b) ≡ returns (v, L.reader [])) (append-nil t.bytes)
          (t.reads []) in
      (t.bytes, rw (t.writes []), λ s. rw (read, L.failed_reader []))

  -- A client writes the arguments of a request, and all of them fit in a message. Then there is a message
  -- that this writes, and the call with the number of the procedure and this message does what the
  -- handler of the request does with these arguments, in every state of the server: the same reply and
  -- the same state, the same panic, or the same wait.
  pub serve_call_lem :
      (rounds : ℕ) (now : Nfstime3) (q : Request)
      → FitsRequest q
      → (b : Bytes) × (write_args X q (L.writer []) ≡ returns (tt, L.writer b))
        × ((s : Session W)
            → serve_call W X rounds now (proc_number q) (L.reader b) s
              ≡ (handle W rounds now q >>= λ out. pure (replied out)) s)
  unfolding write_args proc_number serve_call pure wrapper_null wrapper_getattr wrapper_setattr
      wrapper_lookup wrapper_access wrapper_readlink wrapper_read wrapper_write wrapper_create
      wrapper_mkdir wrapper_symlink wrapper_mknod wrapper_remove wrapper_rmdir wrapper_rename
      wrapper_link wrapper_readdir wrapper_readdirplus wrapper_fsstat wrapper_fsinfo
      wrapper_pathconf wrapper_commit
  serve_call_lem rounds now null fits = ([], refl, λ s. refl)
  serve_call_lem rounds now (getattr a) fits =
      wrapped_call (xdr_getattr_args X) zero_getattr_args a (λ a. handle W rounds now (getattr a))
        (getattr_args-Travels X L a fits)
  serve_call_lem rounds now (setattr a) fits =
      wrapped_call (xdr_setattr_args X) zero_setattr_args a (λ a. handle W rounds now (setattr a))
        (setattr_args-Travels X L a fits)
  serve_call_lem rounds now (lookup a) fits =
      wrapped_call (xdr_lookup_args X) zero_lookup_args a (λ a. handle W rounds now (lookup a))
        (lookup_args-Travels X L a fits)
  serve_call_lem rounds now (access a) fits =
      wrapped_call (xdr_access_args X) zero_access_args a (λ a. handle W rounds now (access a))
        (access_args-Travels X L a fits)
  serve_call_lem rounds now (readlink a) fits =
      wrapped_call (xdr_readlink_args X) zero_readlink_args a
        (λ a. handle W rounds now (readlink a)) (readlink_args-Travels X L a fits)
  serve_call_lem rounds now (read_file a) fits =
      wrapped_call (xdr_read_args X) zero_read_args a (λ a. handle W rounds now (read_file a))
        (read_args-Travels X L a fits)
  serve_call_lem rounds now (write_file a) fits =
      wrapped_call (xdr_write_args X) zero_write_args a (λ a. handle W rounds now (write_file a))
        (write_args-Travels X L a fits)
  serve_call_lem rounds now (create a) fits =
      wrapped_call (xdr_create_args X) zero_create_args a (λ a. handle W rounds now (create a))
        (create_args-Travels X L a fits)
  serve_call_lem rounds now (mkdir a) fits =
      wrapped_call (xdr_mkdir_args X) zero_mkdir_args a (λ a. handle W rounds now (mkdir a))
        (mkdir_args-Travels X L a fits)
  serve_call_lem rounds now (symlink a) fits =
      wrapped_call (xdr_symlink_args X) zero_symlink_args a (λ a. handle W rounds now (symlink a))
        (symlink_args-Travels X L a fits)
  serve_call_lem rounds now (mknod a) fits =
      wrapped_call (xdr_mknod_args X) zero_mknod_args a (λ a. handle W rounds now (mknod a))
        (mknod_args-Travels X L a fits)
  serve_call_lem rounds now (remove a) fits =
      wrapped_call (xdr_remove_args X) zero_remove_args a (λ a. handle W rounds now (remove a))
        (remove_args-Travels X L a fits)
  serve_call_lem rounds now (rmdir a) fits =
      wrapped_call (xdr_remove_args X) zero_remove_args a (λ a. handle W rounds now (rmdir a))
        (remove_args-Travels X L a fits)
  serve_call_lem rounds now (rename a) fits =
      wrapped_call (xdr_rename_args X) zero_rename_args a (λ a. handle W rounds now (rename a))
        (rename_args-Travels X L a fits)
  serve_call_lem rounds now (link a) fits =
      wrapped_call (xdr_link_args X) zero_link_args a (λ a. handle W rounds now (link a))
        (link_args-Travels X L a fits)
  serve_call_lem rounds now (readdir a) fits =
      wrapped_call (xdr_readdir_args X) zero_readdir_args a (λ a. handle W rounds now (readdir a))
        (readdir_args-Travels X L a fits)
  serve_call_lem rounds now (readdirplus a) fits =
      wrapped_call (xdr_readdirplus_args X) zero_readdirplus_args a
        (λ a. handle W rounds now (readdirplus a)) (readdirplus_args-Travels X L a fits)
  serve_call_lem rounds now (fsstat a) fits =
      wrapped_call (xdr_fsstat_args X) zero_fsstat_args a (λ a. handle W rounds now (fsstat a))
        (fsstat_args-Travels X L a fits)
  serve_call_lem rounds now (fsinfo a) fits =
      wrapped_call (xdr_fsinfo_args X) zero_fsinfo_args a (λ a. handle W rounds now (fsinfo a))
        (fsinfo_args-Travels X L a fits)
  serve_call_lem rounds now (pathconf a) fits =
      wrapped_call (xdr_pathconf_args X) zero_pathconf_args a
        (λ a. handle W rounds now (pathconf a)) (pathconf_args-Travels X L a fits)
  serve_call_lem rounds now (commit_file a) fits =
      wrapped_call (xdr_commit_args X) zero_commit_args a (λ a. handle W rounds now (commit_file a))
        (commit_args-Travels X L a fits)
