-- ===== src/Fstxn/Locks.antt =====
-- fstxn/: every operation of a transaction keeps its locks in order, and its ends give them all back.
use go_nfsd.Prelude.{
  ℕ, ◌≡◌, sym, ap, ◌∙◌, Bool, true, false, not, ◌==◌, if◌then◌else◌, Option, none, some, Outcome,
  Outcome-cases, inl, inr, ok, panic, Gives, Gives-ok, Gives-panic, Option-cases,
}
use go_nfsd.External.World.{World, WorldLaws}
use go_nfsd.Programs.{pure, ◌>>=◌, if_nil}
use go_nfsd.Programs.Keeps.{
  After, After-map, Ensures, Ensures-bind, Ensures-pure, Ensures-pure_from, Ensures-crash,
  Ensures-if, Goes, Goes-pure, Goes-lift, Goes-via,
}
use go_nfsd.Nfstypes.{NfsFh3, Nfstime3}
use go_nfsd.Fh as Fh
use go_nfsd.Alloctxn.{AllocTxn}
use go_nfsd.Inode.Layout.{Inode, nf3free, init_inode, write_inode}
use go_nfsd.Inode.Sizes.{is_shrinking}
use go_nfsd.Fstxn.State.{find_inode, FsTxn, FsProg, on_atxn, on_inode, begin_again}
use go_nfsd.Fstxn.Inodes.{
  load, lookup_inode, own_inum, release_inode, get_inode_locked, get_inode_inum_free,
  get_inode_inum, get_inode_fh, get_inode_unlocked, init_new, alloc_inode,
}
use go_nfsd.Fstxn.Commit.{
  pre_commit, post_commit, commit_op, commit_wait, commit, commit_data, commit_unstable, flush_log,
  commit_fh, abort,
}
use go_nfsd.Fstxn.Owned.{has_inode, Owned, Rested, SameLocks, Owned-same, start-Rested}
use go_nfsd.Fstxn.Quiet.{
  Quiet, Quiet-Owned, Quiet-Rested, Quiet-load, Quiet-on_atxn, Quiet-on_inode, on_inode-Same,
  KeepsInum,
}
use go_nfsd.Fstxn.Releases.{release_inode-Owned, release_inodes-Rested}
use go_nfsd.Fstxn.Acquires.{Got, get_inode_locked-Got}

module _ (W : World) (H : WorldLaws W) where
  abbrev O : FsTxn W → Type 0
  O = Owned W H

  abbrev R : FsTxn W → Type 0
  R = Rested W H

  -- The inode at `p` is the transaction's.
  pub record Mine (p : ℕ) (op : FsTxn W) : Type 0 where
    pub owned : Owned W H op
    pub has : has_inode op.inodes (op.fs.objects p).inum ≡ true

  abbrev pub MineIf : Option ℕ → FsTxn W → Type 0
  MineIf none op = Owned W H op
  MineIf (some p) op = Mine p op

  pub Mine-same : (p : ℕ) (op op' : FsTxn W) → SameLocks W H op op' → Mine p op → Mine p op'
  Mine-same p op op' s m = record {
    owned = Owned-same W H op op' s m.owned;
    has = rw s.inodes (ap (has_inode op.inodes) (s.inums p) ∙ m.has);
  }

  pub Mine-Owned : {A : Type 0} (p : ℕ) (m : FsProg W A) → Quiet W H m → Goes (Mine p) (Mine p) m
  Mine-Owned p m q = record {
    at = λ op o. After-map (m op) (q.at op) λ a op' s. Mine-same p op op' s o;
  }

  pub load-Mine : (p q : ℕ) → Goes (Mine p) (Mine p) (load W q)
  load-Mine p q = Mine-Owned p (load W q) (Quiet-load W H q)

  pub release-Mine : (p : ℕ) → Goes (Mine p) (Owned W H) (release_inode W p)
  release-Mine p = record {
    at = λ op m.
        After-map (release_inode W p op) (release_inode-Owned W H op p m.owned m.has)
          λ _ op' r. r.owned;
  }

  pub Got-Mine : (inum p : ℕ) (op : FsTxn W) → Got W H inum p op → Mine p op
  Got-Mine inum p op g = record {
    owned = g.owned;
    has = ap (has_inode op.inodes) g.number ∙ g.mine;
  }

  get_inode_locked-Mine : (inum : ℕ) → Ensures O (λ p. Mine p) (get_inode_locked W inum)
  get_inode_locked-Mine inum = record {
    at = λ op o.
        After-map (get_inode_locked W inum op) ((get_inode_locked-Got W H inum).at op o)
          λ p op' g. Got-Mine inum p op' g;
  }

  pub get_inode_inum-MineIf : (inum : ℕ) → Ensures O (λ found. MineIf found) (get_inode_inum W inum)
  unfolding get_inode_inum get_inode_inum_free
  get_inode_inum-MineIf inum =
      Ensures-bind (λ p. Mine p) _ _ (get_inode_locked-Mine inum)
        λ p.
          Ensures-bind (λ _. Mine p) _ _ (load-Mine p p)
            λ ip.
              Ensures-if (ip.kind == nf3free) _ _
                (Ensures-bind (λ _. O) _ _ (release-Mine p) λ _. Ensures-pure none)
                (Ensures-if (ip.nlink == 0) _ _ Ensures-crash (Ensures-pure (some p)))

  pub get_inode_fh-MineIf : (fh3 : NfsFh3) → Ensures O (λ found. MineIf found) (get_inode_fh W fh3)
  unfolding get_inode_fh
  get_inode_fh-MineIf fh3 =
      Ensures-bind (λ _. O) _ _ (Goes-lift (Fh.make_fh W fh3))
        λ fh.
          Ensures-bind (λ found. MineIf found) _ _ (get_inode_inum-MineIf fh.ino)
            λ found. checked fh.gen found
    where
      checked :
          (gen : ℕ) (found : Option ℕ)
          → Ensures
              (MineIf found)
              (λ found. MineIf found)
              (if_nil found (pure none) λ p. load W p >>= λ ip.
                if not (ip.gen == gen)
                then (release_inode W p >>= λ _. pure none)
                else pure (some p))
      checked gen none = Ensures-pure none
      checked gen (some p) =
          Ensures-bind (λ _. Mine p) _ _ (load-Mine p p)
            λ ip.
              Ensures-if (not (ip.gen == gen)) _ _
                (Ensures-bind (λ _. O) _ _ (release-Mine p) λ _. Ensures-pure none)
                (Ensures-pure (some p))

  MineIf-Owned : (found : Option ℕ) (op : FsTxn W) → MineIf found op → O op
  MineIf-Owned none op m = m
  MineIf-Owned (some p) op m = m.owned

  pub get_inode_inum-Owned : (inum : ℕ) → Goes O O (get_inode_inum W inum)
  get_inode_inum-Owned inum = record {
    at = λ op o.
        After-map (get_inode_inum W inum op) ((get_inode_inum-MineIf inum).at op o)
          λ found op' m. MineIf-Owned found op' m;
  }

  pub get_inode_fh-Owned : (fh3 : NfsFh3) → Goes O O (get_inode_fh W fh3)
  get_inode_fh-Owned fh3 = record {
    at = λ op o.
        After-map (get_inode_fh W fh3 op) ((get_inode_fh-MineIf fh3).at op o)
          λ found op' m. MineIf-Owned found op' m;
  }

  pub get_inode_locked-Owned : (inum : ℕ) → Goes O O (get_inode_locked W inum)
  get_inode_locked-Owned inum = record {
    at = λ op o.
        After-map (get_inode_locked W inum op) ((get_inode_locked-Mine inum).at op o)
          λ p op' m. m.owned;
  }

  pub get_inode_inum_free-Owned : (inum : ℕ) → Goes O O (get_inode_inum_free W inum)
  unfolding get_inode_inum_free
  get_inode_inum_free-Owned inum = get_inode_locked-Owned inum

  pub load-Owned : (p : ℕ) → Goes O O (load W p)
  load-Owned p = Quiet-Owned W H _ (Quiet-load W H p)

  pub on_atxn-Owned :
      {A : Type 0} (f : AllocTxn W → Outcome (A × AllocTxn W)) → Goes O O (on_atxn W f)
  on_atxn-Owned f = Quiet-Owned W H _ (Quiet-on_atxn W H f)

  pub on_atxn-Rested :
      {A : Type 0} (f : AllocTxn W → Outcome (A × AllocTxn W)) → Goes R R (on_atxn W f)
  on_atxn-Rested f = Quiet-Rested W H _ (Quiet-on_atxn W H f)

  pub on_inode-Owned :
      {A : Type 0} (p : ℕ) (f : Inode → AllocTxn W → Outcome (A × Inode × AllocTxn W))
      → KeepsInum W f
      → Goes O O (on_inode W p f)
  on_inode-Owned p f k = Quiet-Owned W H _ (Quiet-on_inode W H p f k)

  pub own_inum-Owned : (inum : ℕ) → Goes O O (own_inum W inum)
  unfolding own_inum
  own_inum-Owned inum = record { at = λ op o. o }

  pub get_inode_unlocked-Owned : (inum : ℕ) → Goes O O (get_inode_unlocked W inum)
  unfolding get_inode_unlocked lookup_inode ◌>>=◌
  get_inode_unlocked-Owned inum = record {
    at = λ op o. elim (Option-cases (find_inode op.inodes inum)) [
      | inl none_there ↦ rw (none_there, After) tt
      | inr (p, there) ↦ rw (there, After) o
    ];
  }

  -- A way through owned transactions, and through rested ones.
  pub via_owned :
      {A B : Type 0} {P Q : FsTxn W → Type 0} (m : FsProg W A) (f : A → FsProg W B)
      → Goes P O m
      → ((a : A) → Goes O Q (f a))
      → Goes P Q (m >>= f)
  via_owned m f g k = Goes-via O m f g k

  pub via_rested :
      {A B : Type 0} {P Q : FsTxn W → Type 0} (m : FsProg W A) (f : A → FsProg W B)
      → Goes P R m
      → ((a : A) → Goes R Q (f a))
      → Goes P Q (m >>= f)
  via_rested m f g k = Goes-via R m f g k

  -- What AllocInode does to its inode.
  abbrev pub writes :
      ℕ → ℕ → Nfstime3 → Inode → AllocTxn W → Outcome (Unit {0} × Inode × AllocTxn W)
  writes inum kind now i atxn = elim (write_inode W (init_inode i inum kind now) atxn) [
    | ok atxn' ↦ ok (tt, init_inode i inum kind now, atxn')
    | panic ↦ panic
  ]

  pub writes-Same :
      (p inum kind : ℕ) (now : Nfstime3) (op : FsTxn W)
      → (op.fs.objects p).inum ≡ inum
      → After (on_inode W p (writes inum kind now) op) (λ _ op'. SameLocks W H op op')
  unfolding init_inode
  writes-Same p inum kind now op e =
      on_inode-Same W H p (writes inum kind now) op (keeps (op.fs.objects p) op.atxn e)
    where
      keeps :
          (i : Inode) (atxn : AllocTxn W)
          → i.inum ≡ inum
          → Gives (λ r. r.1.inum ≡ i.inum) (writes inum kind now i atxn)
      keeps i atxn number = elim (Outcome-cases (write_inode W (init_inode i inum kind now) atxn)) [
        | inl bad ↦ rw (bad, writes) Gives-panic
        | inr (a, e) ↦ rw (e, writes) (Gives-ok _ (sym number))
      ]

  init_new-Owned :
      (p inum kind : ℕ) (now : Nfstime3)
      → Ensures (Got W H inum p) (λ _. O) (init_new W p inum kind now)
  unfolding init_new load
  init_new-Owned p inum kind now =
      Ensures-bind (λ _. Got W H inum p) _ _ (record { at = λ op g. g })
        λ ip. Ensures-if (not (ip.kind == nf3free)) _ _ Ensures-crash (
          Ensures-if (not (is_shrinking W ip)) _ _
            (record {
              at = λ op g.
                  After-map (on_inode W p (writes inum kind now) op)
                    (writes-Same p inum kind now op g.number)
                    λ _ op' s. Owned-same W H op op' s g.owned;
            })
            (Ensures-pure_from tt λ op g. g.owned))

  pub alloc_inode-Owned : (kind : ℕ) (now : Nfstime3) → Goes O O (alloc_inode W kind now)
  unfolding alloc_inode
  alloc_inode-Owned kind now = via_owned _ _ (on_atxn-Owned _) λ inum.
      Ensures-if (inum == W.nullinum) _ _ (Goes-pure none) (
        Ensures-bind (λ p. Got W H inum p) _ _ (get_inode_locked-Got W H inum)
          λ p. Ensures-bind (λ _. O) _ _ (init_new-Owned p inum kind now) λ _. Goes-pure (some p))

  pub begin_again-Rested : Goes R R (begin_again W)
  unfolding begin_again
  begin_again-Rested = record { at = λ op r. start-Rested W H op r }

  pub begin_again-Owned : Goes R O (begin_again W)
  begin_again-Owned = record {
    at = λ op r. After-map (begin_again W op) (begin_again-Rested.at op r) λ _ _ x. x.owned;
  }

  pub abort-Rested : Goes O R (abort W)
  unfolding abort
  abort-Rested =
      via_rested _ _ (release_inodes-Rested W H)
        λ _. via_rested _ _ (on_atxn-Rested _) λ _. Goes-pure true

  post_commit-Rested : Goes O R (post_commit W)
  unfolding post_commit
  post_commit-Rested = via_rested _ _ (release_inodes-Rested W H) λ _. on_atxn-Rested _

  pre_commit-Owned : Goes O O (pre_commit W)
  unfolding pre_commit
  pre_commit-Owned = on_atxn-Owned _

  commit_op-Owned : (wait : Bool) → Goes O O (commit_op W wait)
  unfolding commit_op
  commit_op-Owned wait = record {
    at = λ op o. record {
      valid = o.valid;
      room = o.room;
      cached = o.cached;
      keyed = o.keyed;
      locks = o.locks;
    };
  }

  flush_log-Owned : Goes O O (flush_log W)
  unfolding flush_log
  flush_log-Owned = record {
    at = λ op o. record {
      valid = o.valid;
      room = o.room;
      cached = o.cached;
      keyed = o.keyed;
      locks = o.locks;
    };
  }

  commit_wait-Rested : (wait : Bool) → Goes O R (commit_wait W wait)
  unfolding commit_wait
  commit_wait-Rested wait = via_owned _ _ pre_commit-Owned λ _.
      via_owned _ _ (commit_op-Owned wait) λ d. via_rested _ _ post_commit-Rested λ _. Goes-pure d

  pub commit-Rested : Goes O R (commit W)
  unfolding commit
  commit-Rested = commit_wait-Rested true

  pub commit_data-Rested : Goes O R (commit_data W)
  unfolding commit_data
  commit_data-Rested = commit-Rested

  pub commit_unstable-Rested : Goes O R (commit_unstable W)
  unfolding commit_unstable
  commit_unstable-Rested = commit_wait-Rested false

  pub commit_fh-Rested : Goes O R (commit_fh W)
  unfolding commit_fh
  commit_fh-Rested =
      via_owned _ _ pre_commit-Owned
        λ _. via_owned _ _ flush_log-Owned λ d. via_rested _ _ post_commit-Rested λ _. Goes-pure d
