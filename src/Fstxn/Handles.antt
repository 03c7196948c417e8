-- ===== src/Fstxn/Handles.antt =====
-- fstxn/fstxn.go: what GetInodeInum and GetInodeFh give.
use go_nfsd.Prelude.{
  ℕ, ◌≡◌, ◌≢◌, refl, sym, ap, ◌∙◌, subst, false, not, ◌==◌, if◌then◌else◌, Option, none, some, ok,
  arith,
}
use go_nfsd.External.World.{World, WorldLaws}
use go_nfsd.Programs.{returns, pure, lift, ◌>>=◌, if_nil}
use go_nfsd.Programs.Keeps.{
  After, Ensures, Ensures-bind, Ensures-pure_from, Ensures-then, Ensures-test, Ensures-crash,
}
use go_nfsd.Nfstypes.{NfsFh3}
use go_nfsd.Fh.{Fh, make_fh}
use go_nfsd.Inode.Layout.{nf3free}
use go_nfsd.Fstxn.State.{FsTxn}
use go_nfsd.Fstxn.Owned.{Owned}
use go_nfsd.Fstxn.Inodes.{load, get_inode_inum_free, get_inode_inum, get_inode_fh, release_inode}
use go_nfsd.Fstxn.Acquires.{Got, get_inode_locked-Got}

other : (a b : ℕ) → (a == b) ≡ false → a ≢ b
other a b h e = ground arith

pub same : (a b : ℕ) → not (a == b) ≡ false → a ≡ b
same a b h = ground arith

module _ (W : World) (H : WorldLaws W) where
  pub load-here :
      (P : FsTxn W → Type 0) (p : ℕ) → Ensures P (λ ip op. P op × (ip ≡ op.fs.objects p)) (load W p)
  unfolding load
  load-here P p = record { at = λ op h. (h, refl) }

  -- Nothing is said when nil is returned.
  abbrev pub UnlessNil : (ℕ → FsTxn W → Type 0) → Option ℕ → FsTxn W → Type 0
  UnlessNil Q none op = Unit
  UnlessNil Q (some p) op = Q p op

  pub record Used (inum p : ℕ) (op : FsTxn W) : Type 0 where
    pub got : Got W H inum p op
    pub kind : (op.fs.objects p).kind ≢ nf3free
    pub linked : (op.fs.objects p).nlink ≢ 0

  nothing :
      (Q : ℕ → FsTxn W → Type 0) → Ensures (λ _. Unit) (λ found. UnlessNil Q found) (pure none)
  nothing Q = Ensures-pure_from none λ op h. h

  pub get_inode_inum-Used :
      (inum : ℕ)
      → Ensures (Owned W H) (λ found. UnlessNil (Used inum) found) (get_inode_inum W inum)
  unfolding get_inode_inum get_inode_inum_free
  get_inode_inum-Used inum =
      Ensures-bind (λ p. Got W H inum p) _ _ (get_inode_locked-Got W H inum)
        λ p.
          Ensures-bind (λ ip op. Got W H inum p op × (ip ≡ op.fs.objects p)) _ _
            (load-here (Got W H inum p) p)
            λ ip.
              Ensures-test (ip.kind == nf3free) _ _ (λ _. Ensures-then _ _ λ _. nothing (Used inum))
                λ kind.
                  Ensures-test (ip.nlink == 0) _ _ (λ _. Ensures-crash)
                    λ linked. Ensures-pure_from (some p) λ op h. record {
                      got = h.0;
                      kind = subst (λ i. i.kind ≢ nf3free) h.1 (other ip.kind nf3free kind);
                      linked = subst (λ i. i.nlink ≢ 0) h.1 (other ip.nlink 0 linked);
                    }

  pub record Fits (inum gen p : ℕ) (op : FsTxn W) : Type 0 where
    pub used : Used inum p op
    pub same_gen : (op.fs.objects p).gen ≡ gen

  checked-Fits :
      (inum gen : ℕ) (found : Option ℕ)
      → Ensures
          (UnlessNil (Used inum) found)
          (λ found. UnlessNil (Fits inum gen) found)
          (if_nil found (pure none) λ p. load W p >>= λ ip.
            if not (ip.gen == gen) then (release_inode W p >>= λ _. pure none) else pure (some p))
  checked-Fits inum gen none = Ensures-pure_from none λ op h. h
  checked-Fits inum gen (some p) =
      Ensures-bind (λ ip op. Used inum p op × (ip ≡ op.fs.objects p)) _ _
        (load-here (Used inum p) p)
        λ ip.
          Ensures-test (not (ip.gen == gen)) _ _
            (λ _. Ensures-then _ _ λ _. nothing (Fits inum gen))
            λ e. Ensures-pure_from (some p) λ op h. record {
              used = h.0;
              same_gen = ap (λ i. i.gen) (sym h.1) ∙ same ip.gen gen e;
            }

  get_inode_fh-Fits :
      (fh3 : NfsFh3) (fh : Fh)
      → make_fh W fh3 ≡ ok fh
      → Ensures (Owned W H) (λ found. UnlessNil (Fits fh.ino fh.gen) found) (get_inode_fh W fh3)
  unfolding get_inode_fh lift ◌>>=◌
  get_inode_fh-Fits fh3 fh e = record {
    at = λ op o. rw e (
        (Ensures-bind (λ found. UnlessNil (Used fh.ino) found) _ _ (get_inode_inum-Used fh.ino)
            λ found. checked-Fits fh.ino fh.gen found).at
          op o);
  }

  -- GetInodeFh, in a transaction whose locks are in order: the inode that it returns has the number and
  -- the generation of the handle, it is not free and has a link, and the transaction alone holds its lock.
  pub get_inode_fh_lem :
      (op op' : FsTxn W) (fh3 : NfsFh3) (fh : Fh) (p : ℕ)
      → Owned W H op
      → make_fh W fh3 ≡ ok fh
      → get_inode_fh W fh3 op ≡ returns (some p, op')
      → ((op'.fs.objects p).inum ≡ fh.ino)
        × ((op'.fs.objects p).gen ≡ fh.gen)
        × ((op'.fs.objects p).kind ≢ nf3free)
        × ((op'.fs.objects p).nlink ≢ 0)
        × (H.holders op'.fs.lockmap fh.ino ≡ 1)
  get_inode_fh_lem op op' fh3 fh p o e run =
      let f =
        subst (λ r. After r (λ found. UnlessNil (Fits fh.ino fh.gen) found)) run
          ((get_inode_fh-Fits fh3 fh e).at op o) in
      let got = f.used.got in
      (
        got.number,
        f.same_gen,
        f.used.kind,
        f.used.linked,
        got.owned.locks fh.ino ∙ ap (λ b. if b then 1 else 0) got.mine,
      )
