-- ===== src/Dir/Locks.antt =====
-- dir/: the operations on a directory keep the locks of their transaction in order, and give back those
-- that they take.
use go_nfsd.Prelude.{
  ℕ, zero, suc, ◌≡◌, refl, Bool, true, false, not, ◌==◌, ltb, if◌then◌else◌, add64, Option, none,
  some, Outcome, ok, panic, Gives, Gives-ok, Gives-panic,
}
use go_nfsd.External.World.{World, WorldLaws}
use go_nfsd.Programs.{pure, crash, lift, ◌>>=◌, if_nil}
use go_nfsd.Programs.Keeps.{
  Ensures, Ensures-bind, Ensures-pure, Ensures-if, Ensures-crash, Goes, Goes-pure,
  Goes-out_of_rounds, Goes-lift, goes_rules,
}
use go_nfsd.Nfstypes.{Bytes}
use go_nfsd.Dcache as Dcache
use go_nfsd.Alloctxn.{AllocTxn}
use go_nfsd.Inode.Layout.{Inode}
use go_nfsd.Inode.Data.{read}
use go_nfsd.Inode.Inums.{read-inum, write-inum}
use go_nfsd.Fstxn.State.{FsTxn, FsProg, on_inode}
use go_nfsd.Fstxn.Inodes.{load, release_inode}
use go_nfsd.Fstxn.Owned.{Owned}
use go_nfsd.Fstxn.Quiet.{Quiet, Quiet-Owned, Quiet-load, Quiet-on_inode, KeepsInum}
use go_nfsd.Fstxn.Locks.{
  Mine, MineIf, Mine-Owned, release-Mine, get_inode_inum-MineIf, load-Owned, on_inode-Owned,
  own_inum-Owned, get_inode_unlocked-Owned, via_owned,
}
use go_nfsd.Dir.Entries.{DirEnt, direntsz}
use go_nfsd.Dir.Inums.{add_name_dir-inum, is_dir_empty-inum}
use go_nfsd.Dir.Apply.{
  Visit, first_two, entry_inode, visit_entry, read_entry, apply_loop, apply, set_dcache, get_dcache,
  cache_entry, mk_dcache, need_dcache,
}
use go_nfsd.Dir.Names.{
  lookup_name, add_name_dir, add_name, free_entry, rem_name_dir, rem_name, is_dir_empty, init_dir,
  mk_root_dir,
}

pub first_two-inum :
    {A B D : Type 0} (i : ℕ) (m : Outcome (A × B × Inode × D))
    → Gives (λ r. r.2.inum ≡ i) m
    → Gives (λ r. r.1.inum ≡ i) (first_two m)
first_two-inum i (ok r) g = Gives-ok _ g.at
first_two-inum i panic g = Gives-panic

module _ (W : World) (H : WorldLaws W) where
  abbrev O : FsTxn W → Type 0
  O = Owned W H

  -- A program that leaves every lock as it is.
  pub record Leaves {A : Type 0} (m : FsProg W A) : Type 0 where
    pub owned : Goes (Owned W H) (Owned W H) m
    pub mine : (p : ℕ) → Goes (Mine W H p) (Mine W H p) m

  pub Leaves-Quiet : {A : Type 0} (m : FsProg W A) → Quiet W H m → Leaves m
  Leaves-Quiet m q = record { owned = Quiet-Owned W H m q; mine = λ p. Mine-Owned W H p m q }

  pub Leaves-pure : {A : Type 0} (a : A) → Leaves (pure a)
  Leaves-pure a = record { owned = Goes-pure a; mine = λ p. Goes-pure a }

  pub Leaves-crash : {A : Type 0} → Leaves (crash {A = A})
  Leaves-crash = record { owned = Ensures-crash; mine = λ p. Ensures-crash }

  pub Leaves-lift : {A : Type 0} (m : Outcome A) → Leaves (lift m)
  Leaves-lift m = record { owned = Goes-lift m; mine = λ p. Goes-lift m }

  pub Leaves-bind :
      {A B : Type 0} (m : FsProg W A) (f : A → FsProg W B)
      → Leaves m
      → ((a : A) → Leaves (f a))
      → Leaves (m >>= f)
  Leaves-bind m f g k = record {
    owned = Ensures-bind (λ _. O) m f g.owned λ a. (k a).owned;
    mine = λ p. Ensures-bind (λ _. Mine W H p) m f (g.mine p) λ a. (k a).mine p;
  }

  pub Leaves-load : (p : ℕ) → Leaves (load W p)
  Leaves-load p = Leaves-Quiet _ (Quiet-load W H p)

  abbrev pub QuietVisit : {R : Type 0} → Visit W R → Type 0
  QuietVisit {R} f = (r : R) (p : ℕ) (name : Bytes) (inum off : ℕ) → Leaves (f r p name inum off)

  abbrev Visiting : Bool × ℕ → FsTxn W → Type 0
  Visiting (true, p) op = Owned W H op
  Visiting (false, p) op = Mine W H p op

  entry_inode-Mine : (inum : ℕ) → Ensures O (λ e. Visiting e) (entry_inode W inum)
  unfolding entry_inode
  entry_inode-Mine inum =
      Ensures-bind (λ _. O) _ _ (own_inum-Owned W H inum)
        λ own.
          Ensures-if own _ _
            (Ensures-bind (λ _. O) _ _ (get_inode_unlocked-Owned W H inum)
              λ p. Ensures-pure (true, p))
            (Ensures-bind (λ found. MineIf W H found) _ _ (get_inode_inum-MineIf W H inum)
              λ found. taken found)
    where
      taken :
          (found : Option ℕ)
          → Ensures (MineIf W H found) (λ e. Visiting e) (if_nil found crash λ p. pure (false, p))
      taken none = Ensures-crash
      taken (some p) = Ensures-pure (false, p)

  visit_entry-Owned :
      {R : Type 0} (f : Visit W R)
      → QuietVisit f
      → (r : R) (de : DirEnt) (off : ℕ) → Goes O O (visit_entry W f r de off)
  unfolding visit_entry
  visit_entry-Owned f q r de off =
      Ensures-bind (λ e. Visiting e) _ _ (entry_inode-Mine de.inum) λ e. visited e
    where
      visited :
          (e : Bool × ℕ)
          → Goes (Visiting e) O (
              f r e.1 de.name de.inum off >>= λ r'.
              (if not e.0 then release_inode W e.1 else pure tt) >>= λ _. pure r')
      visited (true, p) =
          Ensures-bind (λ _. O) _ _ (q r p de.name de.inum off).owned
            λ r'. Ensures-bind (λ _. O) _ _ (Goes-pure tt) λ _. Goes-pure r'
      visited (false, p) =
          Ensures-bind (λ _. Mine W H p) _ _ ((q r p de.name de.inum off).mine p)
            λ r'. Ensures-bind (λ _. O) _ _ (release-Mine W H p) λ _. Goes-pure r'

  read_entry-KeepsInum : (off : ℕ) → KeepsInum W (λ i atxn. first_two (read W i atxn off direntsz))
  read_entry-KeepsInum off i atxn =
      first_two-inum i.inum _ (read-inum W i.inum i atxn off direntsz refl)

  Leaves-on_inode :
      {A : Type 0} (p : ℕ) (f : Inode → AllocTxn W → Outcome (A × Inode × AllocTxn W))
      → KeepsInum W f
      → Leaves (on_inode W p f)
  Leaves-on_inode p f k = Leaves-Quiet _ (Quiet-on_inode W H p f k)

  read_entry-Owned : (dip off : ℕ) → Goes O O (read_entry W dip off)
  unfolding read_entry
  read_entry-Owned dip off =
      via_owned W H _ _ (on_inode-Owned W H dip _ (read_entry-KeepsInum off)) λ r. Goes-lift _

  apply_loop-Owned :
      {R : Type 0} (f : Visit W R)
      → QuietVisit f
      → (fuel dip dircount maxcount off n dirbytes : ℕ) (r : R)
      → Goes O O (apply_loop W fuel dip dircount maxcount f off n dirbytes r)
  unfolding apply_loop
  apply_loop-Owned f q zero dip dircount maxcount off n dirbytes r = Goes-out_of_rounds
  apply_loop-Owned f q (suc fuel) dip dircount maxcount off n dirbytes r =
      let rest = apply_loop-Owned f q fuel dip dircount maxcount in
      via_owned W H _ _ (load-Owned W H dip) λ i.
        Ensures-if (not (ltb off i.size)) _ _ (Goes-pure (r, true)) (
          via_owned W H _ _ (read_entry-Owned dip off) λ de.
            Ensures-if (de.inum == W.nullinum) _ _ (rest (add64 off direntsz) n dirbytes r) (
              via_owned W H _ _ (visit_entry-Owned f q r de off)
                λ r'. Ensures-if _ _ _ (Goes-pure (r', false)) (rest (add64 off direntsz) _ _ r')))

  pub apply-Owned :
      {R : Type 0} (f : Visit W R)
      → QuietVisit f
      → (dip start dircount maxcount : ℕ) (r : R)
      → Goes O O (apply W dip start dircount maxcount f r)
  unfolding apply
  apply-Owned f q dip start dircount maxcount r =
      via_owned W H _ _ (load-Owned W H dip)
        λ i. apply_loop-Owned f q _ dip dircount maxcount _ 64 0 r

  set_dcache-Leaves : (dip : ℕ) (dc : Dcache.Dcache) → Leaves (set_dcache W dip dc)
  unfolding set_dcache
  set_dcache-Leaves dip dc = Leaves-on_inode dip _ λ i atxn. Gives-ok _ refl

  get_dcache-Leaves : (dip : ℕ) → Leaves (get_dcache W dip)
  unfolding get_dcache
  get_dcache-Leaves dip = Leaves-bind _ _ (Leaves-load dip) λ i. there i.dcache
    where
      there : (o : Option Dcache.Dcache) → Leaves (if_nil o crash pure)
      there none = Leaves-crash
      there (some dc) = Leaves-pure dc

  cache_entry-QuietVisit : (dip : ℕ) → QuietVisit (cache_entry W dip)
  unfolding cache_entry
  cache_entry-QuietVisit dip r p name inum off =
      Leaves-bind _ _ (get_dcache-Leaves dip) λ dc. set_dcache-Leaves dip _

  pub set_dcache-Owned : (dip : ℕ) (dc : Dcache.Dcache) → Goes O O (set_dcache W dip dc)
  set_dcache-Owned dip dc = (set_dcache-Leaves dip dc).owned

  pub get_dcache-Owned : (dip : ℕ) → Goes O O (get_dcache W dip)
  get_dcache-Owned dip = (get_dcache-Leaves dip).owned

  mk_dcache-Owned : (dip : ℕ) → Goes O O (mk_dcache W dip)
  unfolding mk_dcache
  mk_dcache-Owned dip = via_owned W H _ _ (set_dcache-Owned dip _) λ _.
      via_owned W H _ _ (load-Owned W H dip) λ i.
        via_owned W H _ _
          (apply-Owned (cache_entry W dip) (cache_entry-QuietVisit dip) dip 0 i.size 100000000 tt)
          λ _. Goes-pure tt

  need_dcache-Owned : (dip : ℕ) → Goes O O (need_dcache W dip)
  unfolding need_dcache
  need_dcache-Owned dip =
      search (goes_rules, via_owned W H, load-Owned W H, mk_dcache-Owned, get_dcache-Owned) depth 10

  pub lookup_name-Owned : (dip : ℕ) (name : Bytes) → Goes O O (lookup_name W dip name)
  unfolding lookup_name
  lookup_name-Owned dip name =
      search (goes_rules, via_owned W H, load-Owned W H, need_dcache-Owned) depth 10

  add_name_dir-Owned :
      (dip inum : ℕ) (name : Bytes) (lastoff : ℕ) → Goes O O (add_name_dir W dip inum name lastoff)
  unfolding add_name_dir
  add_name_dir-Owned dip inum name lastoff =
      on_inode-Owned W H dip _
        λ i atxn. first_two-inum i.inum _ (add_name_dir-inum W i.inum i atxn inum name lastoff refl)

  pub add_name-Owned : (dip inum : ℕ) (name : Bytes) → Goes O O (add_name W dip inum name)
  unfolding add_name
  add_name-Owned dip inum name =
      search
        (
          goes_rules,
          via_owned W H,
          load-Owned W H,
          need_dcache-Owned,
          add_name_dir-Owned,
          get_dcache-Owned,
          set_dcache-Owned,
        )
        depth 14

  free_entry-Owned : (dip off : ℕ) → Goes O O (free_entry W dip off)
  unfolding free_entry
  free_entry-Owned dip off = via_owned W H _ _ (Goes-lift _) λ ent.
      via_owned W H _ _
        (on_inode-Owned W H dip _
          λ i atxn. first_two-inum i.inum _ (write-inum W i.inum i atxn off direntsz ent refl))
        λ r. Goes-pure _

  rem_name_dir-Owned : (dip : ℕ) (name : Bytes) → Goes O O (rem_name_dir W dip name)
  unfolding rem_name_dir
  rem_name_dir-Owned dip name =
      search (goes_rules, via_owned W H, lookup_name-Owned, free_entry-Owned) depth 10

  pub rem_name-Owned : (dip : ℕ) (name : Bytes) → Goes O O (rem_name W dip name)
  unfolding rem_name
  rem_name-Owned dip name =
      search
        (
          goes_rules,
          via_owned W H,
          load-Owned W H,
          need_dcache-Owned,
          rem_name_dir-Owned,
          get_dcache-Owned,
          set_dcache-Owned,
        )
        depth 14

  pub is_dir_empty-Owned : (dip : ℕ) → Goes O O (is_dir_empty W dip)
  unfolding is_dir_empty
  is_dir_empty-Owned dip = on_inode-Owned W H dip _ λ i atxn. is_dir_empty-inum W i.inum i atxn refl

  pub init_dir-Owned : (dip parent : ℕ) → Goes O O (init_dir W dip parent)
  unfolding init_dir
  init_dir-Owned dip parent =
      search (goes_rules, via_owned W H, load-Owned W H, add_name-Owned) depth 10

  pub mk_root_dir-Owned : (dip : ℕ) → Goes O O (mk_root_dir W dip)
  unfolding mk_root_dir
  mk_root_dir-Owned dip =
      search (goes_rules, via_owned W H, load-Owned W H, add_name-Owned) depth 10
