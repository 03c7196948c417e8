-- ===== src/Fstxn/Quiet.antt =====
-- fstxn/: actions of a transaction that take no lock and give none back.
use go_nfsd.Prelude.{
  ℕ, ◌≡◌, refl, ◌∙◌, sym, ◌==◌, ==_iff, if◌then◌else◌, inl, inr, Bool-cases, Outcome-cases, Outcome,
  Gives, OnOk, subst,
}
use go_nfsd.External.World.{World, WorldLaws}
use go_nfsd.Programs.Keeps.{After, After-map, Goes}
use go_nfsd.Alloctxn.{AllocTxn}
use go_nfsd.Inode.Layout.{Inode}
use go_nfsd.Fstxn.State.{FsTxn, FsProg, on_atxn, on_inode}
use go_nfsd.Fstxn.Inodes.{load}
use go_nfsd.Fstxn.Owned.{Owned, Rested, SameLocks, Owned-same, Rested-same}

-- Code that keeps the number of its inode.
abbrev pub KeepsInum :
    (W : World) {A : Type 0} → (Inode → AllocTxn W → Outcome (A × Inode × AllocTxn W)) → Type 0
KeepsInum W f = (i : Inode) (atxn : AllocTxn W) → Gives (λ r. r.1.inum ≡ i.inum) (f i atxn)

module _ (W : World) (H : WorldLaws W) where
  pub record Quiet {A : Type 0} (m : FsProg W A) : Type 0 where
    pub at : (op : FsTxn W) → After (m op) (λ _ op'. SameLocks W H op op')

  pub Quiet-Owned : {A : Type 0} (m : FsProg W A) → Quiet m → Goes (Owned W H) (Owned W H) m
  Quiet-Owned m q = record {
    at = λ op o. After-map (m op) (q.at op) λ a op' s. Owned-same W H op op' s o;
  }

  pub Quiet-Rested : {A : Type 0} (m : FsProg W A) → Quiet m → Goes (Rested W H) (Rested W H) m
  Quiet-Rested m q = record {
    at = λ op r. After-map (m op) (q.at op) λ a op' s. Rested-same W H op op' s r;
  }

  pub Quiet-load : (p : ℕ) → Quiet (load W p)
  unfolding load
  Quiet-load p = record {
    at = λ op. record {
      icache = refl;
      lockmap = refl;
      next = refl;
      inodes = refl;
      inums = λ q. refl;
    };
  }

  pub Quiet-on_atxn : {A : Type 0} (f : AllocTxn W → Outcome (A × AllocTxn W)) → Quiet (on_atxn W f)
  unfolding on_atxn
  Quiet-on_atxn f = record {
    at = λ op. elim (Outcome-cases (f op.atxn)) [
      | inl bad ↦ rw (bad, After) tt
      | inr (r, e) ↦
          rw (e, After)
            (record {
              icache = refl;
              lockmap = refl;
              next = refl;
              inodes = refl;
              inums = λ q. refl;
            })
    ];
  }

  set_inum :
      (objects : ℕ → Inode) (p : ℕ) (ip : Inode)
      → ip.inum ≡ (objects p).inum
      → (q : ℕ) → (if q == p then ip else objects q).inum ≡ (objects q).inum
  set_inum objects p ip e q = elim (Bool-cases (q == p)) [
    | inl same ↦ rw same (
        e ∙ sym (subst (λ n. (objects n).inum ≡ (objects p).inum) (sym ((==_iff q p).0 same)) refl))
    | inr other ↦ rw other refl
  ]

  -- Code that keeps the number of the inode in the state where it runs.
  pub on_inode-Same :
      {A : Type 0} (p : ℕ) (f : Inode → AllocTxn W → Outcome (A × Inode × AllocTxn W))
      (op : FsTxn W)
      → Gives (λ r. r.1.inum ≡ (op.fs.objects p).inum) (f (op.fs.objects p) op.atxn)
      → After (on_inode W p f op) (λ _ op'. SameLocks W H op op')
  unfolding on_inode
  on_inode-Same p f op keeps = elim (Outcome-cases (f (op.fs.objects p) op.atxn)) [
    | inl bad ↦ rw (bad, After) tt
    | inr (r, e) ↦
        let same : r.1.inum ≡ (op.fs.objects p).inum =
          subst (λ m. OnOk m (λ r. r.1.inum ≡ (op.fs.objects p).inum)) e keeps.at in
        rw (e, After)
          (record {
            icache = refl;
            lockmap = refl;
            next = refl;
            inodes = refl;
            inums = set_inum op.fs.objects p r.1 same;
          })
  ]

  pub Quiet-on_inode :
      {A : Type 0} (p : ℕ) (f : Inode → AllocTxn W → Outcome (A × Inode × AllocTxn W))
      → KeepsInum W f
      → Quiet (on_inode W p f)
  Quiet-on_inode p f keeps = record {
    at = λ op. on_inode-Same p f op (keeps (op.fs.objects p) op.atxn);
  }
