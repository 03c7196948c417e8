-- ===== src/Nfs/Locks.antt =====
-- nfs/: between requests no lock is held. The steps of a session.
pub mod Orders
pub mod Files
pub mod Names
pub mod Renames
pub mod Requests
pub mod Served
pub mod Twice
use go_nfsd.Prelude.{
  ℕ, zero, suc, ◌≡◌, refl, Bool, true, false, not, if◌then◌else◌, Option, none, some,
}
use go_nfsd.External.World.{World, WorldLaws}
use go_nfsd.Programs.{
  Result, returns, panics, waits, unfinished, Prog, pure, gets, crash, put_back, modify, within,
  ◌>>=◌, if_nil,
}
use go_nfsd.Programs.Keeps.{
  After, Ensures, Ensures-if, Ensures-if_nil, Ensures-crash, Goes, Goes-pure, Goes-gets,
  Goes-out_of_rounds, Goes-via, goes_rules,
}
use go_nfsd.Nfstypes.{Nfsstat3, NfsFh3}
use go_nfsd.Inode.Sizes.{is_shrinking}
use go_nfsd.Fstxn.State.{FsTxn, FsProg, begin_again}
use go_nfsd.Fstxn.Owned.{Owned, Rested}
use go_nfsd.Fstxn.Locks.{
  abort-Rested, begin_again-Owned, begin_again-Rested, commit-Rested, get_inode_fh-Owned,
  load-Owned,
}
use go_nfsd.Shrinker.Locks.{do_shrink-Rested}
use go_nfsd.Nfs.Session.{
  Session, NfsProg, on_op, err_ret, commit_reply, start_shrinker, do_shrink, shrink_first,
  shrink_loop, get_shrink, deref,
}

After-put_back :
    {S T A : Type 0} (f : S → T) (r : Result (A × S)) (Q : A → T → Type 0)
    → After r (λ a s. Q a (f s))
    → After (put_back f r) Q
After-put_back f (returns (a, s)) Q h = h
After-put_back f panics Q h = tt
After-put_back f waits Q h = tt
After-put_back f unfinished Q h = tt

module _ (W : World) (H : WorldLaws W) where
  -- The locks of the session's transaction are in order; no lock is held.
  abbrev pub Active : Session W → Type 0
  Active s = Owned W H s.op

  abbrev pub Idle : Session W → Type 0
  Idle s = Rested W H s.op

  pub on_op-Ensures :
      {A : Type 0} (P : FsTxn W → Type 0) (Q : A → FsTxn W → Type 0) (m : FsProg W A)
      → Ensures P Q m
      → Ensures (λ s. P s.op) (λ a s. Q a s.op) (on_op W m)
  unfolding on_op
  on_op-Ensures P Q m g = record { at = λ s p. After-put_back _ (m s.op) _ (g.at s.op p) }

  pub on_locked :
      {A : Type 0} (m : FsProg W A)
      → Goes (Owned W H) (Owned W H) m
      → Goes Active Active (on_op W m)
  on_locked m g = on_op-Ensures (Owned W H) (λ _. Owned W H) m g

  pub on_end :
      {A : Type 0} (m : FsProg W A) → Goes (Owned W H) (Rested W H) m → Goes Active Idle (on_op W m)
  on_end m g = on_op-Ensures (Owned W H) (λ _. Rested W H) m g

  pub on_start :
      {A : Type 0} (m : FsProg W A) → Goes (Rested W H) (Owned W H) m → Goes Idle Active (on_op W m)
  on_start m g = on_op-Ensures (Rested W H) (λ _. Owned W H) m g

  pub on_free :
      {A : Type 0} (m : FsProg W A) → Goes (Rested W H) (Rested W H) m → Goes Idle Idle (on_op W m)
  on_free m g = on_op-Ensures (Rested W H) (λ _. Rested W H) m g

  pub via_locked :
      {A B : Type 0} {P Q : Session W → Type 0} (m : NfsProg W A) (f : A → NfsProg W B)
      → Goes P Active m
      → ((a : A) → Goes Active Q (f a))
      → Goes P Q (m >>= f)
  via_locked m f g k = Goes-via Active m f g k

  pub via_free :
      {A B : Type 0} {P Q : Session W → Type 0} (m : NfsProg W A) (f : A → NfsProg W B)
      → Goes P Idle m
      → ((a : A) → Goes Idle Q (f a))
      → Goes P Q (m >>= f)
  via_free m f g k = Goes-via Idle m f g k

  pub begins : Goes Idle Active (on_op W (begin_again W))
  begins = on_start _ (begin_again-Owned W H)

  pub err_ret-Idle : (err : Nfsstat3) → Goes Active Idle (err_ret W err)
  unfolding err_ret
  err_ret-Idle err = via_free _ _ (on_end _ (abort-Rested W H)) λ _. Goes-pure err

  pub commit_reply-Idle : Goes Active Idle (commit_reply W)
  unfolding commit_reply
  commit_reply-Idle = via_free _ _ (on_end _ (commit-Rested W H)) λ d. Goes-pure _

  pub start_shrinker-Active : (inum : ℕ) → Goes Active Active (start_shrinker W inum)
  unfolding start_shrinker modify
  start_shrinker-Active inum = record { at = λ s h. h }

  do_shrink-Idle : (rounds inum : ℕ) → Goes Idle Idle (do_shrink W rounds inum)
  unfolding do_shrink
  do_shrink-Idle rounds inum =
      via_free _ _ (Goes-gets _) λ crashed. on_free _ (do_shrink-Rested W H rounds crashed inum)

  pub from_free :
      {A : Type 0} {Q : Session W → Type 0} (m : NfsProg W A) → Goes Active Q m → Goes Idle Q m
  from_free m g = record { at = λ s r. g.at s r.owned }

  -- The new transaction has no lock.
  pub shrink_first-Idle : (rounds inum : ℕ) → Goes Active Idle (shrink_first W rounds inum)
  unfolding shrink_first
  shrink_first-Idle rounds inum = via_free _ _ (on_end _ (abort-Rested W H)) λ _.
      via_free _ _ (do_shrink-Idle rounds inum)
        λ d. via_free _ _ (on_free _ (begin_again-Rested W H)) λ _. Goes-pure d

  shrink_loop-Active : (n rounds : ℕ) (fh : NfsFh3) → Goes Idle Active (shrink_loop W n rounds fh)
  unfolding shrink_loop
  shrink_loop-Active zero rounds fh = Goes-out_of_rounds
  shrink_loop-Active (suc n) rounds fh = via_locked _ _ begins λ _.
      via_locked _ _ (on_locked _ (get_inode_fh-Owned W H fh)) λ found.
        Ensures-if_nil found _ _ (Goes-pure _) λ p.
          via_locked _ _ (on_locked _ (load-Owned W H p)) λ ip.
            Ensures-if (not (is_shrinking W ip)) _ _ (Goes-pure _) (
              via_free _ _ (shrink_first-Idle rounds ip.inum) λ done.
                Ensures-if (not done) _ _ (from_free _ (Goes-pure _))
                  (shrink_loop-Active n rounds fh))

  pub get_shrink-Active : (rounds : ℕ) (fh : NfsFh3) → Goes Idle Active (get_shrink W rounds fh)
  unfolding get_shrink
  get_shrink-Active rounds fh = shrink_loop-Active rounds rounds fh

  pub deref-Active : (o : Option ℕ) → Goes Active Active (deref W o)
  deref-Active o = Ensures-if_nil o _ _ Ensures-crash λ p. Goes-pure p
