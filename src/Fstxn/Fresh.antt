-- ===== src/Fstxn/Fresh.antt =====
-- fstxn/fstxn.go: what AllocInode gives.
use go_nfsd.Prelude.{
  ℕ, ◌≡◌, ◌⊎◌, refl, ap, ◌∙◌, subst, true, Bool, false, inl, inr, not, ◌==◌, if◌then◌else◌, none,
  some, Outcome-cases, arith,
}
use go_nfsd.External.World.{World, WorldLaws}
use go_nfsd.Programs.{Result, returns, panics, waits, unfinished}
use go_nfsd.Programs.Keeps.{
  After, Ensures, After-map, Ensures-bind, Ensures-pure_from, Ensures-test, Ensures-if,
  Ensures-crash,
}
use go_nfsd.Nfstypes.{Nfstime3}
use go_nfsd.Cache.Lists.{same_true}
use go_nfsd.Inode.Layout.{Inode, nf3free, init_inode, write_inode}
use go_nfsd.Inode.Sizes.{is_shrinking}
use go_nfsd.Fstxn.State.{FsTxn, set_object, with_atxn, on_inode}
use go_nfsd.Fstxn.Owned.{Owned}
use go_nfsd.Fstxn.Inodes.{init_new, alloc_inode}
use go_nfsd.Fstxn.Acquires.{Got, get_inode_locked-Got}
use go_nfsd.Fstxn.Locks.{Mine, Mine-same, Got-Mine, writes, writes-Same, on_atxn-Owned}
use go_nfsd.Fstxn.Handles.{UnlessNil, same, load-here}

After-both :
    {S A : Type 0} (P Q : A → S → Type 0) (r : Result (A × S))
    → After r P
    → After r Q
    → After r (λ a s. P a s × Q a s)
After-both P Q (returns _) p q = (p, q)
After-both P Q panics p q = tt
After-both P Q waits p q = tt
After-both P Q unfinished p q = tt

was_true : (b : Bool) → not b ≡ false → b ≡ true
was_true b h = ground arith

module _ (W : World) (H : WorldLaws W) where
  -- The inode is new, or it is free and is still shrinking.
  abbrev pub NewOrShrinking : ℕ → Inode → Type 0
  NewOrShrinking kind ip =
      ((ip.kind ≡ kind) × (ip.nlink ≡ 1)) ⊎ ((ip.kind ≡ nf3free) × (is_shrinking W ip ≡ true))

  pub record Fresh (kind p : ℕ) (op : FsTxn W) : Type 0 where
    pub mine : Mine W H p op
    pub new : NewOrShrinking kind (op.fs.objects p)

  writes_kind :
      (p inum kind : ℕ) (now : Nfstime3) (op : FsTxn W)
      → After
          (on_inode W p (writes W H inum kind now) op)
          (λ _ op'. ((op'.fs.objects p).kind ≡ kind) × ((op'.fs.objects p).nlink ≡ 1))
  unfolding on_inode set_object with_atxn init_inode
  writes_kind p inum kind now op =
      elim (Outcome-cases (write_inode W (init_inode (op.fs.objects p) inum kind now) op.atxn)) [
        | inl bad ↦ rw (bad, After) tt
        | inr (a, e) ↦ rw (e, After, same_true p) (refl, refl)
      ]

  init_new-Fresh :
      (p inum kind : ℕ) (now : Nfstime3)
      → Ensures (Got W H inum p) (λ _. Fresh kind p) (init_new W p inum kind now)
  unfolding init_new
  init_new-Fresh p inum kind now =
      Ensures-bind (λ ip op. Got W H inum p op × (ip ≡ op.fs.objects p)) _ _
        (load-here W H (Got W H inum p) p)
        λ ip.
          Ensures-test (not (ip.kind == nf3free)) _ _ (λ _. Ensures-crash)
            λ free.
              Ensures-test (not (is_shrinking W ip)) _ _
                (λ _. record {
                  at = λ op h.
                      After-map (on_inode W p (writes W H inum kind now) op)
                        (After-both _ _ (on_inode W p (writes W H inum kind now) op)
                          (writes-Same W H p inum kind now op h.0.number)
                          (writes_kind p inum kind now op))
                        λ _ op' k. record {
                          mine = Mine-same W H p op op' k.0 (Got-Mine W H inum p op h.0);
                          new = inl k.1;
                        };
                })
                (λ shrinks. Ensures-pure_from tt λ op h. record {
                  mine = Got-Mine W H inum p op h.0;
                  new = inr (
                      subst (λ i. (i.kind ≡ nf3free) × (is_shrinking W i ≡ true)) h.1
                        (same ip.kind nf3free free, was_true (is_shrinking W ip) shrinks));
                })

  alloc_inode-Fresh :
      (kind : ℕ) (now : Nfstime3)
      → Ensures (Owned W H) (λ found. UnlessNil W H (Fresh kind) found) (alloc_inode W kind now)
  unfolding alloc_inode
  alloc_inode-Fresh kind now =
      Ensures-bind (λ _. Owned W H) _ _ (on_atxn-Owned W H _)
        λ inum. Ensures-if (inum == W.nullinum) _ _ (Ensures-pure_from none λ op h. tt) (
          Ensures-bind (λ p. Got W H inum p) _ _ (get_inode_locked-Got W H inum)
            λ p.
              Ensures-bind (λ _. Fresh kind p) _ _ (init_new-Fresh p inum kind now)
                λ _. Ensures-pure_from (some p) λ op h. h)

  -- AllocInode, in a transaction whose locks are in order: the inode that it returns has the kind asked
  -- for and one link, or it is free and still shrinking, which is when getAlloc shrinks it and begins
  -- again. The transaction alone holds its lock in both cases.
  pub alloc_inode_lem :
      (op op' : FsTxn W) (kind : ℕ) (now : Nfstime3) (p : ℕ)
      → Owned W H op
      → alloc_inode W kind now op ≡ returns (some p, op')
      → NewOrShrinking kind (op'.fs.objects p)
        × (H.holders op'.fs.lockmap (op'.fs.objects p).inum ≡ 1)
  alloc_inode_lem op op' kind now p o run =
      let f =
        subst (λ r. After r (λ found. UnlessNil W H (Fresh kind) found)) run
          ((alloc_inode-Fresh kind now).at op o) in
      (f.new, f.mine.owned.locks (op'.fs.objects p).inum ∙ ap (λ b. if b then 1 else 0) f.mine.has)
