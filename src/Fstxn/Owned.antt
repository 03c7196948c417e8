-- ===== src/Fstxn/Owned.antt =====
-- fstxn/fstxn.go: which locks a transaction holds.
use go_nfsd.Prelude.{
  ℕ, ◌<◌, ◌≤◌, ◌≡◌, refl, sym, ap, ◌∙◌, subst, [], ◌∷◌, Bool, true, false, ◌==◌, if◌then◌else◌,
  none, some, Bool-cases, inl, inr, arith,
}
use go_nfsd.External.World.{World, WorldLaws}
use go_nfsd.Cache.Laws.{Valid}
use go_nfsd.Cache.Lookup.{held}
use go_nfsd.Inode.Layout.{Inode}
use go_nfsd.Fstxn.State.{InodeMap, find_inode, delete_inode, FsTxn, begin}

abbrev pub has_inode : InodeMap → ℕ → Bool
has_inode m n = elim (find_inode m n) [ none ↦ false | some _ ↦ true ]

-- Every inode stands under its own number, once.
abbrev pub Keyed : (ℕ → Inode) → ℕ → InodeMap → Type 0
Keyed objects next [] = Unit
Keyed objects next ((i, p) ∷ m) =
    ((objects p).inum ≡ i) × (p < next) × (has_inode m i ≡ false) × Keyed objects next m

pub has-delete :
    (m : InodeMap) (i n : ℕ)
    → has_inode (delete_inode m i) n ≡ (if i == n then false else has_inode m n)
unfolding delete_inode find_inode
has-delete [] i n = ground arith
has-delete ((j, p) ∷ m) i n = let rest = has-delete m i n in grind arith

module _ (W : World) (H : WorldLaws W) where
  -- The inodes of the cache and of the transaction have the numbers that they stand under, and the
  -- locks that are held are those of the transaction's inodes.
  pub record Owned (op : FsTxn W) : Type 0 where
    pub valid : Valid ℕ op.fs.icache
    pub room : 0 < op.fs.icache.sz
    pub cached :
        (id p : ℕ)
        → held ℕ op.fs.icache id ≡ some p
        → ((op.fs.objects p).inum ≡ id) × (p < op.fs.next_object)
    pub keyed : Keyed op.fs.objects op.fs.next_object op.inodes
    pub locks : (n : ℕ) → H.holders op.fs.lockmap n ≡ (if has_inode op.inodes n then 1 else 0)

  -- No lock is held.
  pub record Rested (op : FsTxn W) : Type 0 where
    pub owned : Owned op
    pub none : op.inodes ≡ []

  pub start-Rested : (op : FsTxn W) → Rested op → Rested (begin W op.fs)
  unfolding begin
  start-Rested op r = record {
    owned = record {
      valid = r.owned.valid;
      room = r.owned.room;
      cached = r.owned.cached;
      keyed = tt;
      locks = λ n.
          subst (λ m. H.holders op.fs.lockmap n ≡ (if has_inode m n then 1 else 0)) r.none
            (r.owned.locks n);
    };
    none = refl;
  }

pub Keyed-delete :
    (objects : ℕ → Inode) (next : ℕ) (m : InodeMap) (i : ℕ)
    → Keyed objects next m
    → Keyed objects next (delete_inode m i)
unfolding delete_inode
Keyed-delete objects next [] i k = tt
Keyed-delete objects next ((j, p) ∷ m) i (e, low, new, rest) = elim (Bool-cases (j == i)) [
  | inl same ↦ rw same (Keyed-delete objects next m i rest)
  | inr other ↦
      rw other (
        e,
        low,
        has-delete m i j ∙ gone i j (has_inode m j) new,
        Keyed-delete objects next m i rest,
      )
]
  where
    gone : (i j : ℕ) (b : Bool) → b ≡ false → (if i == j then false else b) ≡ false
    gone i j b h = ground arith

pub Keyed-same :
    (objects objects' : ℕ → Inode) (next next' : ℕ) (m : InodeMap)
    → next ≤ next'
    → ((q : ℕ) → q < next → (objects' q).inum ≡ (objects q).inum)
    → Keyed objects next m
    → Keyed objects' next' m
Keyed-same objects objects' next next' [] le same k = tt
Keyed-same objects objects' next next' ((j, p) ∷ m) le same (e, low, new, rest) = (
  same p low ∙ e,
  omega (arith, low, le),
  new,
  Keyed-same objects objects' next next' m le same rest,
)

module _ (W : World) (H : WorldLaws W) where
  -- The parts of a transaction that the locks depend on.
  pub record SameLocks (op op' : FsTxn W) : Type 0 where
    pub icache : op'.fs.icache ≡ op.fs.icache
    pub lockmap : op'.fs.lockmap ≡ op.fs.lockmap
    pub next : op'.fs.next_object ≡ op.fs.next_object
    pub inodes : op'.inodes ≡ op.inodes
    pub inums : (p : ℕ) → (op'.fs.objects p).inum ≡ (op.fs.objects p).inum

  pub Owned-same : (op op' : FsTxn W) → SameLocks op op' → Owned W H op → Owned W H op'
  Owned-same op op' s o = record {
    valid = rw s.icache o.valid;
    room = rw s.icache o.room;
    cached = λ id p h.
        let old = o.cached id p (ap (λ c. held ℕ c id) (sym s.icache) ∙ h) in
        (s.inums p ∙ old.0, rw s.next old.1);
    keyed =
        rw (s.next, s.inodes)
          (Keyed-same op.fs.objects op'.fs.objects op.fs.next_object op.fs.next_object op.inodes
            (omega arith) (λ q low. s.inums q) o.keyed);
    locks = λ n. rw (s.lockmap, s.inodes) (o.locks n);
  }

  pub Rested-same : (op op' : FsTxn W) → SameLocks op op' → Rested W H op → Rested W H op'
  Rested-same op op' s r = record { owned = Owned-same op op' s r.owned; none = s.inodes ∙ r.none }
