-- ===== src/Nfs/Wire/Locks.antt =====
-- nfstypes/nfs_xdr.go: a server that gets calls of any kind gives back its locks.
use go_nfsd.Prelude.{ℕ, ◌≡◌, ap, ◌∙◌, Bool, if◌then◌else◌, List, [], ◌∷◌, ◌==◌}
use go_nfsd.External.World.{World, WorldLaws}
use go_nfsd.External.Xdr.{Xdr}
use go_nfsd.Programs.{Result, returns, panics, waits, unfinished, ◌>>=◌}
use go_nfsd.Programs.Keeps.{Ensures-if, Ensures-crash, Ensures-out_of_rounds, Goes, Goes-pure}
use go_nfsd.Nfstypes.{Nfstime3}
use go_nfsd.Super.{FsSuper}
use go_nfsd.Fstxn.State.{find_inode, mk_fs_state}
use go_nfsd.Fstxn.Owned.{has_inode}
use go_nfsd.Nfs.Session.{Session, NfsProg, serve}
use go_nfsd.Nfs.Start.{first_request}
use go_nfsd.Nfs.Requests.{
  Reply, null, getattr, setattr, lookup, access, readlink, read_file, write_file, create, mkdir,
  symlink, mknod, remove, rmdir, rename, link, readdir, readdirplus, fsstat, fsinfo, pathconf,
  commit_file,
}
use go_nfsd.Nfs.Locks.{Idle, via_free}
use go_nfsd.Nfs.Locks.Requests.{handle-Idle}
use go_nfsd.Nfs.Locks.Served.{serve-Idle, first_request-Idle, After-returns}
use go_nfsd.Xdr.{XdrProg}
use go_nfsd.Nfs.Wire.{serve_call, serve_calls}
use go_nfsd.Nfs.Methods.{
  Answer, wrapped, serve_read, wrapper_null, wrapper_getattr, wrapper_setattr, wrapper_lookup,
  wrapper_access, wrapper_readlink, wrapper_read, wrapper_write, wrapper_create, wrapper_mkdir,
  wrapper_symlink, wrapper_mknod, wrapper_remove, wrapper_rmdir, wrapper_rename, wrapper_link,
  wrapper_readdir, wrapper_readdirplus, wrapper_fsstat, wrapper_fsinfo, wrapper_pathconf,
  wrapper_commit,
}

module _ (W : World) (H : WorldLaws W) (X : Xdr) where
  serve_read-Idle :
      {A : Type 0} (h : A → NfsProg W Reply) (r : Result (A × X.XdrState))
      → ((a : A) → Goes (Idle W H) (Idle W H) (h a))
      → Goes (Idle W H) (Idle W H) (serve_read W X h r)
  unfolding serve_read
  serve_read-Idle h (returns (args, xs)) g =
      Ensures-if (X.failed xs) _ _ (Goes-pure _) (via_free W H _ _ (g args) λ out. Goes-pure _)
  serve_read-Idle h panics g = Ensures-crash
  serve_read-Idle h waits g = record { at = λ s i. tt }
  serve_read-Idle h unfinished g = Ensures-out_of_rounds

  wrapped-Idle :
      {A : Type 0} (read : A → XdrProg X A) (zero_in : A) (h : A → NfsProg W Reply)
      (args : X.XdrState)
      → ((a : A) → Goes (Idle W H) (Idle W H) (h a))
      → Goes (Idle W H) (Idle W H) (wrapped W X read zero_in h args)
  unfolding wrapped
  wrapped-Idle read zero_in h args g = serve_read-Idle h (read zero_in args) g

  serve_call-Idle :
      (rounds : ℕ) (now : Nfstime3) (proc : ℕ) (args : X.XdrState)
      → Goes (Idle W H) (Idle W H) (serve_call W X rounds now proc args)
  unfolding serve_call wrapper_null wrapper_getattr wrapper_setattr wrapper_lookup wrapper_access
      wrapper_readlink wrapper_read wrapper_write wrapper_create wrapper_mkdir wrapper_symlink
      wrapper_mknod wrapper_remove wrapper_rmdir wrapper_rename wrapper_link wrapper_readdir
      wrapper_readdirplus wrapper_fsstat wrapper_fsinfo wrapper_pathconf wrapper_commit
  serve_call-Idle rounds now proc args =
      let idle = handle-Idle W H rounds now in
      Ensures-if (proc == 0) _ _ (via_free W H _ _ (idle null) λ out. Goes-pure _) (
        Ensures-if (proc == 1) _ _ (wrapped-Idle _ _ _ args λ a. idle (getattr a)) (
          Ensures-if (proc == 2) _ _ (wrapped-Idle _ _ _ args λ a. idle (setattr a)) (
            Ensures-if (proc == 3) _ _ (wrapped-Idle _ _ _ args λ a. idle (lookup a)) (
              Ensures-if (proc == 4) _ _ (wrapped-Idle _ _ _ args λ a. idle (access a)) (
                Ensures-if (proc == 5) _ _ (wrapped-Idle _ _ _ args λ a. idle (readlink a)) (
                  Ensures-if (proc == 6) _ _ (wrapped-Idle _ _ _ args λ a. idle (read_file a)) (
                    Ensures-if (proc == 7) _ _ (wrapped-Idle _ _ _ args λ a. idle (write_file a)) (
                      Ensures-if (proc == 8) _ _ (wrapped-Idle _ _ _ args λ a. idle (create a)) (
                        Ensures-if (proc == 9) _ _ (wrapped-Idle _ _ _ args λ a. idle (mkdir a)) (
                          Ensures-if (proc == 10) _ _
                            (wrapped-Idle _ _ _ args λ a. idle (symlink a))
                            (Ensures-if (proc == 11) _ _
                              (wrapped-Idle _ _ _ args λ a. idle (mknod a))
                              (Ensures-if (proc == 12) _ _
                                (wrapped-Idle _ _ _ args λ a. idle (remove a))
                                (Ensures-if (proc == 13) _ _
                                  (wrapped-Idle _ _ _ args λ a. idle (rmdir a))
                                  (Ensures-if (proc == 14) _ _
                                    (wrapped-Idle _ _ _ args λ a. idle (rename a))
                                    (Ensures-if (proc == 15) _ _
                                      (wrapped-Idle _ _ _ args λ a. idle (link a))
                                      (Ensures-if (proc == 16) _ _
                                        (wrapped-Idle _ _ _ args λ a. idle (readdir a))
                                        (Ensures-if (proc == 17) _ _
                                          (wrapped-Idle _ _ _ args λ a. idle (readdirplus a))
                                          (Ensures-if (proc == 18) _ _
                                            (wrapped-Idle _ _ _ args λ a. idle (fsstat a))
                                            (Ensures-if (proc == 19) _ _
                                              (wrapped-Idle _ _ _ args λ a. idle (fsinfo a))
                                              (Ensures-if (proc == 20) _ _
                                                (wrapped-Idle _ _ _ args λ a. idle (pathconf a))
                                                (Ensures-if (proc == 21) _ _
                                                  (wrapped-Idle _ _ _ args
                                                    λ a. idle (commit_file a))
                                                  (Goes-pure _))))))))))))))))))))))

  serve_calls-Idle :
      (rounds : ℕ) (calls : List (Nfstime3 × ℕ × X.XdrState))
      → Goes (Idle W H) (Idle W H) (serve_calls W X rounds calls)
  unfolding serve_calls
  serve_calls-Idle rounds [] = Goes-pure []
  serve_calls-Idle rounds ((now, proc, args) ∷ calls) =
      via_free W H _ _ (serve_call-Idle rounds now proc args)
        λ a. via_free W H _ _ (serve_calls-Idle rounds calls) λ rest. Goes-pure _

  -- A server starts on a file system, makes the root directory where the file system is new, and works
  -- on calls from the network, one after the other: each has a number, which need not be that of a procedure,
  -- and a message in any state, whose arguments need not be readable. If all of them are answered, then no lock is held
  -- afterwards, whether the calls were served, refused or not understood.
  pub serve_calls_lem :
      (super : FsSuper) (log : W.Log) (balloc ialloc : W.Alloc) (new : Bool) (rounds : ℕ)
      (calls : List (Nfstime3 × ℕ × X.XdrState)) (answers : List Answer) (s : Session W)
      → (first_request W new >>= λ _. serve_calls W X rounds calls)
          (serve W (mk_fs_state W super log balloc ialloc))
        ≡ returns (answers, s)
      → (n : ℕ) → H.holders s.op.fs.lockmap n ≡ 0
  unfolding find_inode
  serve_calls_lem super log balloc ialloc new rounds calls answers s e n =
      let run = via_free W H _ _ (first_request-Idle W H new) λ _. serve_calls-Idle rounds calls in
      let idle =
        After-returns W H (λ _. Idle W H) _ answers s e
          (run.at _ (serve-Idle W H super log balloc ialloc)) in
      idle.owned.locks n ∙ ap (λ m. if has_inode m n then 1 else 0) idle.none
