-- ===== src/Nfs/Locks/Served.antt =====
-- nfs/nfs.go: a server that starts, and works on requests, gives back its locks.
use go_nfsd.Prelude.{ℕ, ◌≡◌, refl, ap, ◌∙◌, subst, Bool, if◌then◌else◌, List, arith}
use go_nfsd.External.World.{World, WorldLaws}
use go_nfsd.Programs.{Result, returns, ◌>>=◌}
use go_nfsd.Programs.Keeps.{After, Ensures-if, Ensures-crash, Goes, Goes-pure}
use go_nfsd.Nfstypes.{Nfstime3}
use go_nfsd.Super.{FsSuper}
use go_nfsd.Cache.Lookup.{mk_cache-Valid}
use go_nfsd.Fstxn.State.{find_inode, mk_fs_state, begin}
use go_nfsd.Fstxn.Owned.{has_inode, Rested}
use go_nfsd.Fstxn.Locks.{
  begin_again-Owned, get_inode_inum_free-Owned, commit-Rested, via_owned, via_rested,
}
use go_nfsd.Dir.Locks.{mk_root_dir-Owned}
use go_nfsd.Nfs.Session.{Session, serve}
use go_nfsd.Nfs.Start.{make_root_dir, first_request}
use go_nfsd.Nfs.Requests.{Request, Reply, serve_requests}
use go_nfsd.Nfs.Locks.{Idle, on_free, via_free}
use go_nfsd.Nfs.Locks.Requests.{serve_requests-Idle}

module _ (W : World) (H : WorldLaws W) where
  pub serve-Idle :
      (super : FsSuper) (log : W.Log) (balloc ialloc : W.Alloc)
      → Idle W H (serve W (mk_fs_state W super log balloc ialloc))
  unfolding serve begin mk_fs_state find_inode
  serve-Idle super log balloc ialloc = record {
    owned = record {
      valid = mk_cache-Valid ℕ 100 (omega arith);
      room = omega arith;
      cached = λ id p h. absurd (cc h);
      keyed = tt;
      locks = λ n. H.holders-mk_lock_map n;
    };
    none = refl;
  }

  make_root_dir-Rested : Goes (Rested W H) (Rested W H) (make_root_dir W)
  unfolding make_root_dir
  make_root_dir-Rested = via_owned W H _ _ (begin_again-Owned W H) λ _.
      via_owned W H _ _ (get_inode_inum_free-Owned W H W.rootinum) λ ip.
        via_owned W H _ _ (mk_root_dir-Owned W H ip) λ _.
          via_rested W H _ _ (commit-Rested W H) λ d. Ensures-if d _ _ (Goes-pure tt) Ensures-crash

  pub first_request-Idle : (new : Bool) → Goes (Idle W H) (Idle W H) (first_request W new)
  unfolding first_request
  first_request-Idle new = Ensures-if new _ _ (on_free W H _ make_root_dir-Rested) (Goes-pure tt)

  pub After-returns :
      {S A : Type 0} (Q : A → S → Type 0) (r : Result (A × S)) (a : A) (s : S)
      → r ≡ returns (a, s)
      → After r Q
      → Q a s
  After-returns Q r a s e h = subst (λ r. After r Q) e h

  -- A server starts on a file system, makes the root directory where the file system is new, and works
  -- on requests of any kind, one after the other. If all of them return, then no lock is held afterwards,
  -- whether the requests succeeded or were refused.
  pub serve_requests_lem :
      (super : FsSuper) (log : W.Log) (balloc ialloc : W.Alloc) (new : Bool) (rounds : ℕ)
      (qs : List (Nfstime3 × Request)) (replies : List Reply) (s : Session W)
      → (first_request W new >>= λ _. serve_requests W rounds qs)
          (serve W (mk_fs_state W super log balloc ialloc))
        ≡ returns (replies, s)
      → (n : ℕ) → H.holders s.op.fs.lockmap n ≡ 0
  unfolding find_inode
  serve_requests_lem super log balloc ialloc new rounds qs replies s e n =
      let run = via_free W H _ _ (first_request-Idle new) λ _. serve_requests-Idle W H rounds qs in
      let idle =
        After-returns (λ _. Idle W H) _ replies s e
          (run.at _ (serve-Idle super log balloc ialloc)) in
      idle.owned.locks n ∙ ap (λ m. if has_inode m n then 1 else 0) idle.none
