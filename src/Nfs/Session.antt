-- ===== src/Nfs/Session.antt =====
-- nfs/nfs.go and nfs/nfs_ops.go: the state of the full server while it works on a request, and how a
-- request ends. The clock and the rounds of the loops that try again are arguments.
use go_nfsd.Prelude.{ℕ, zero, suc, Bool, true, false, not, if◌then◌else◌, Option, none, some}
use go_nfsd.External.World.{World}
use go_nfsd.Programs.{Prog, ◌>>=◌, ◌>>◌, pure, crash, out_of_rounds, if_nil, gets, modify, within}
use go_nfsd.Nfstypes.{Nfsstat3, nfs3_ok, nfs3err_stale, nfs3err_serverfault, NfsFh3}
use go_nfsd.Shrinker as Shrinker
use go_nfsd.Shrinker.{ShrinkerSt}
use go_nfsd.Inode.Sizes.{is_shrinking}
use go_nfsd.Fstxn.State.{FsState, FsTxn, FsProg, begin, begin_again}
use go_nfsd.Fstxn.Inodes.{load, get_inode_fh}
use go_nfsd.Fstxn.Commit.{commit, abort}

abbrev pub is_ok : Nfsstat3 → Bool
is_ok nfs3_ok = true
is_ok _ = false

module _ (W : World) where
  -- `Nfs`, with the request's last transaction, through which the state of the file system is reached.
  pub record Session : Type 0 where
    pub op : FsTxn W
    pub shrinkst : ShrinkerSt
    pub unstable : Bool

  abbrev pub NfsProg : Type 0 → Type 0
  NfsProg A = Prog Session A

  -- The server of a file system.
  unfoldable pub serve : FsState W → Session
  serve st = record { op = begin W st; shrinkst = Shrinker.mk_shrinker_st; unstable = true }

  unfoldable pub on_op : {A : Type 0} → FsProg W A → NfsProg A
  unfolding within
  on_op m = within (λ s. s.op) (λ s op. record s { op = op }) m

  unfoldable pub err_ret : Nfsstat3 → NfsProg Nfsstat3
  err_ret err = do on_op (abort W); pure err

  unfoldable pub commit_reply : NfsProg Nfsstat3
  commit_reply = do done ← on_op (commit W); pure (if done then nfs3_ok else nfs3err_serverfault)

  -- A pointer, dereferenced.
  abbrev pub deref : Option ℕ → NfsProg ℕ
  deref o = if_nil o crash pure

  -- `errRet` and `commitReply` of a transaction that may be nil; a pointer that is not nil is to the
  -- request's transaction. Both begin with a field of the transaction, which panics on nil.
  unfoldable pub err_ret_at : Option (Unit {0}) → Nfsstat3 → NfsProg Nfsstat3
  err_ret_at op err = if_nil op crash λ _. err_ret err

  unfoldable pub commit_reply_at : Option (Unit {0}) → NfsProg Nfsstat3
  commit_reply_at op = if_nil op crash λ _. commit_reply

  unfoldable pub start_shrinker : ℕ → NfsProg (Unit {0})
  start_shrinker inum =
      modify (λ s. record s { shrinkst = Shrinker.start_shrinker s.shrinkst inum })

  unfoldable pub do_shrink : ℕ → ℕ → NfsProg Bool
  do_shrink rounds inum = do
    crashed ← gets (λ s. s.shrinkst.crash)
    on_op (Shrinker.do_shrink W rounds crashed inum)

  -- What a loop does with an inode that is shrinking: its transaction ends, and a new one begins after
  -- the shrinking.
  unfoldable pub shrink_first : ℕ → ℕ → NfsProg Bool
  shrink_first rounds inum = do
    on_op (abort W)
    done ← do_shrink rounds inum
    on_op (begin_again W)
    pure done

  -- `rounds` bounds the rounds of this loop and of the loop of DoShrink.
  unfoldable pub shrink_loop : ℕ → ℕ → NfsFh3 → NfsProg (Option ℕ × Nfsstat3)
  shrink_loop zero rounds fh = out_of_rounds
  shrink_loop (suc n) rounds fh = do
    on_op (begin_again W)
    found ← on_op (get_inode_fh W fh)
    if_nil found (pure (none, nfs3err_stale)) λ p. (do
      ip ← on_op (load W p)
      if not (is_shrinking W ip) then pure (some p, nfs3_ok) else (do
        done ← shrink_first rounds ip.inum
        if not done then pure (some p, nfs3err_serverfault) else shrink_loop n rounds fh))

  unfoldable pub get_shrink : ℕ → NfsFh3 → NfsProg (Option ℕ × Nfsstat3)
  get_shrink rounds fh = shrink_loop rounds rounds fh
