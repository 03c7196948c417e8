-- ===== src/Fstxn/Releases.antt =====
-- fstxn/fstxn.go: the locks that are given back.
use go_nfsd.Prelude.{
  ℕ, ◌≡◌, refl, sym, ap, ◌∙◌, subst, [], ◌∷◌, Bool, true, false, ◌==◌, ==_iff, if◌then◌else◌,
  Bool-cases, inl, inr, arith,
}
use go_nfsd.External.World.{World, WorldLaws}
use go_nfsd.Programs.{modify, pure, ◌>>=◌}
use go_nfsd.Programs.Keeps.{After, After-bind, Goes}
use go_nfsd.Fstxn.State.{InodeMap, find_inode, delete_inode, FsTxn}
use go_nfsd.Fstxn.Inodes.{done_inode, release_inode, release_loop, release_inodes}
use go_nfsd.Fstxn.Owned.{has_inode, has-delete, Keyed, Keyed-delete, Owned, Rested}

abbrev released : (b c : Bool) → Bool
released b c = if b then false else c

no_inodes : (m : InodeMap) → ((n : ℕ) → has_inode m n ≡ false) → m ≡ []
unfolding find_inode
no_inodes [] h = refl
no_inodes ((i, p) ∷ m) h = absurd (grind (arith, h i))

count_after :
    (b c : Bool) (n : ℕ)
    → n ≡ (if c then 1 else 0)
    → (if b then 0 else n) ≡ (if (if b then false else c) then 1 else 0)
count_after b c n h = grind arith

pub first_has : (m : InodeMap) (i p : ℕ) → has_inode ((i, p) ∷ m) i ≡ true
unfolding find_inode
first_has m i p = rw ((==_iff i i).1 refl, has_inode) refl

shorter :
    (m : InodeMap) (i p n : ℕ)
    → has_inode m i ≡ false
    → (if i == n then false else has_inode ((i, p) ∷ m) n) ≡ has_inode m n
unfolding find_inode
shorter m i p n new = elim (Bool-cases (i == n)) [
  | inl same ↦ rw same (subst (λ k. false ≡ has_inode m k) ((==_iff i n).0 same) (sym new))
  | inr other ↦ rw (other, has_inode) refl
]

module _ (W : World) (H : WorldLaws W) where
  -- The lock of an inode that the transaction has is given back.
  pub record Released (op : FsTxn W) (p : ℕ) (op' : FsTxn W) : Type 0 where
    pub owned : Owned W H op'
    pub inodes : op'.inodes ≡ delete_inode op.inodes (op.fs.objects p).inum
    pub objects : op'.fs.objects ≡ op.fs.objects
    pub next : op'.fs.next_object ≡ op.fs.next_object

  pub release_inode-Owned :
      (op : FsTxn W) (p : ℕ)
      → Owned W H op
      → has_inode op.inodes (op.fs.objects p).inum ≡ true
      → After (release_inode W p op) (λ _ op'. Released op p op')
  unfolding release_inode done_inode modify ◌>>=◌
  release_inode-Owned op p o has =
      let k = (op.fs.objects p).inum in
      let one : H.holders op.fs.lockmap k ≡ 1 = o.locks k ∙ ap (λ b. if b then 1 else 0) has in
      record {
        owned = record {
          valid = o.valid;
          room = o.room;
          cached = o.cached;
          keyed = Keyed-delete op.fs.objects op.fs.next_object op.inodes k o.keyed;
          locks = λ n.
              H.holders-release op.fs.lockmap k n one
              ∙ count_after (k == n) (has_inode op.inodes n) _ (o.locks n)
              ∙ ap (λ b. if b then 1 else 0) (sym (has-delete op.inodes k n));
        };
        inodes = refl;
        objects = refl;
        next = refl;
      }

  pub release_loop-Rested :
      (m : InodeMap) (op : FsTxn W)
      → Owned W H op
      → Keyed op.fs.objects op.fs.next_object m
      → ((n : ℕ) → has_inode op.inodes n ≡ has_inode m n)
      → After (release_loop W m op) (λ _ op'. Rested W H op')
  unfolding release_loop pure ◌>>=◌ find_inode
  release_loop-Rested [] op o k same = record { owned = o; none = no_inodes op.inodes same }
  release_loop-Rested ((i, p) ∷ m) op o (e, low, new, k) same =
      After-bind (λ _ op'. Released op p op') _ (release_inode W p op) (λ _. release_loop W m)
        (release_inode-Owned op p o (ap (has_inode op.inodes) e ∙ same i ∙ first_has m i p))
        λ _ op' r. release_loop-Rested m op' r.owned (rw (r.objects, r.next) k) λ n.
          ap (λ x. has_inode x n) (r.inodes ∙ ap (delete_inode op.inodes) e)
          ∙ has-delete op.inodes i n
          ∙ ap (λ b. if i == n then false else b) (same n)
          ∙ shorter m i p n new

  pub release_inodes-Rested : Goes (Owned W H) (Rested W H) (release_inodes W)
  unfolding release_inodes
  release_inodes-Rested = record {
    at = λ op o. release_loop-Rested op.inodes op o o.keyed λ n. refl;
  }
