-- ===== src/Fstxn/Acquires.antt =====
-- fstxn/fstxn.go: the locks that a transaction takes.
use native.Mathlib.Decide.{ℕ_discrete}
use go_nfsd.Prelude.{
  ℕ, suc, ◌<◌, ◌*◌, ◌≡◌, refl, sym, ap, ◌∙◌, subst, [], ◌∷◌, ◌++◌, length, length-append, true,
  false, ◌==◌, ==_iff, if◌then◌else◌, some, Option-cases, Bool-cases, inl, inr, Outcome-cases, OnOk,
  Gives, gives_rules, arith,
}
use go_nfsd.External.World.{World, WorldLaws}
use go_nfsd.Programs.{◌>>=◌, if_nil}
use go_nfsd.Programs.Keeps.{After, After-bind, After-map, Ensures, Ensures-bind, Ensures-pure}
use go_nfsd.Nfstypes.{Bytes}
use go_nfsd.Super.{inum2addr}
use go_nfsd.Cache.{Cache}
use go_nfsd.Cache.Lists.{neq_false, same_true}
use go_nfsd.Cache.Slots.{put_obj-Valid, put_obj-held}
use go_nfsd.Cache.Laws.{Valid, some_same}
use go_nfsd.Cache.Lookup.{held, held_none, held_some, Finds, lookup_slot_lem}
use go_nfsd.Inode.Layout.{Inode, decode}
use go_nfsd.Fstxn.State.{InodeMap, find_inode, delete_inode, FsTxn}
use go_nfsd.Fstxn.Inodes.{
  add_inode, lock_inode, fill_slot, read_disk_inode, slot_object, get_inode_locked,
}
use go_nfsd.Fstxn.Owned.{has_inode, has-delete, Keyed, Keyed-delete, Keyed-same, Owned}
use go_nfsd.Fstxn.Releases.{first_has}

module _ (W : World) (H : WorldLaws W) where
  decode-inum : (d : Bytes) (inum : ℕ) → Gives (λ i. i.inum ≡ inum) (decode W d inum)
  unfolding decode
  decode-inum d inum = search gives_rules depth 30

  -- The cache after a lookup: it has room, and its slots hold what they held before.
  room_after : (c c' : Cache ℕ) (id p : ℕ) → Finds ℕ c c' id p → 0 < c'.sz
  room_after c c' id p f =
      let (l, el, e) = f.last in
      let len : length c'.lru ≡ length (l ++ ((el, p) ∷ [])) = ap length e in
      omega (arith, len, length-append l ((el, p) ∷ []), f.valid.count, f.valid.room)

  held_before :
      (c c' : Cache ℕ) (id slot j p : ℕ)
      → Finds ℕ c c' id slot
      → held ℕ c' j ≡ some p
      → held ℕ c j ≡ some p
  held_before c c' id slot j p f h = elim (Option-cases (c'.entries j)) [
    | inl none_there ↦ absurd (cc (h, held_none ℕ c' j none_there))
    | inr (q, there) ↦
        let obj : (c'.heap q).obj ≡ some p = sym (held_some ℕ c' j q there) ∙ h in
        elim (ℕ_discrete j id) [
          | yes e ↦
              let same : slot ≡ q = some_same (sym f.found ∙ ap c'.entries (sym e) ∙ there) in
              ap (held ℕ c) e ∙ sym f.slot ∙ ap (λ x. (c'.heap x).obj) same ∙ obj
          | no ne ↦
              let (before, kept) = f.kept j q ne there in held_some ℕ c j q before ∙ sym kept ∙ obj
        ]
  ]

  -- The state in which the lock is taken and the inode is not yet in the transaction.
  pub record Taken (inum : ℕ) (op : FsTxn W) : Type 0 where
    pub valid : Valid ℕ op.fs.icache
    pub room : 0 < op.fs.icache.sz
    pub cached :
        (id p : ℕ)
        → held ℕ op.fs.icache id ≡ some p
        → ((op.fs.objects p).inum ≡ id) × (p < op.fs.next_object)
    pub keyed : Keyed op.fs.objects op.fs.next_object op.inodes
    pub new : has_inode op.inodes inum ≡ false
    pub locks :
        (n : ℕ)
        → H.holders op.fs.lockmap n
          ≡ (if inum == n then 1 else if has_inode op.inodes n then 1 else 0)

  lock_inode-Taken :
      (inum : ℕ) (op : FsTxn W)
      → Owned W H op
      → After
          (lock_inode W inum op)
          (λ slot op'. (Taken inum op') × (op'.fs.icache.entries inum ≡ some slot))
  unfolding lock_inode
  lock_inode-Taken inum op o = elim (Bool-cases (has_inode op.inodes inum)) [
    | inl own ↦ rw (own, has_inode, After) tt
    | inr free ↦
        let (slot, c', run, f) = lookup_slot_lem ℕ op.fs.icache inum o.valid o.room in
        let zero : H.holders op.fs.lockmap inum ≡ 0 =
          o.locks inum ∙ ap (λ b. if b then 1 else 0) free in
        rw (free, has_inode, run, After)
          (
            record {
              valid = f.valid;
              room = room_after op.fs.icache c' inum slot f;
              cached = λ id p h. o.cached id p (held_before op.fs.icache c' inum slot id p f h);
              keyed = o.keyed;
              new = free;
              locks = λ n.
                  H.holders-acquire op.fs.lockmap inum n zero
                  ∙ ap (λ x. if inum == n then 1 else x) (o.locks n);
            },
            f.found,
          )
  ]

  owned_has :
      (m : InodeMap) (k p n : ℕ)
      → ◌≡◌ {A = ℕ}
          (if k == n then 1 else if has_inode m n then 1 else 0)
          (if has_inode ((k, p) ∷ delete_inode m k) n then 1 else 0)
  unfolding find_inode
  owned_has m k p n =
      let rest = has-delete m k n in
      elim (Bool-cases (k == n)) [
        | inl same ↦ rw (same, has_inode) refl
        | inr other ↦
            rw (other, has_inode)
              (ap (λ b. if b then 1 else 0)
                (sym (rest ∙ ap (λ b. if b then false else has_inode m n) other)))
      ]

  add_inode-Owned :
      (inum p : ℕ) (op : FsTxn W)
      → Taken inum op
      → (op.fs.objects p).inum ≡ inum
      → p < op.fs.next_object
      → After (add_inode W p op) (λ _ op'.
        (Owned W H op') × (op'.fs.objects ≡ op.fs.objects) × (has_inode op'.inodes inum ≡ true))
  unfolding add_inode
  add_inode-Owned inum p op t e low =
      let gone : has_inode (delete_inode op.inodes inum) inum ≡ false =
        has-delete op.inodes inum inum
        ∙ ap (λ b. if b then false else has_inode op.inodes inum) ((==_iff inum inum).1 refl) in
      rw e (
        record {
          valid = t.valid;
          room = t.room;
          cached = t.cached;
          keyed =
              (e, low, gone, Keyed-delete op.fs.objects op.fs.next_object op.inodes inum t.keyed);
          locks = λ n. t.locks n ∙ owned_has op.inodes inum p n;
        },
        refl,
        first_has (delete_inode op.inodes inum) inum p,
      )

  read_disk_inode-inum :
      (inum : ℕ) (op : FsTxn W)
      → After (read_disk_inode W inum op) (λ i op'. (i.inum ≡ inum) × (op' ≡ op))
  unfolding read_disk_inode ◌>>=◌
  read_disk_inode-inum inum op =
      let buf = W.read_buf op.atxn.op (inum2addr W op.fs.super inum) (W.inodesz * 8) in
      elim (Outcome-cases (decode W buf inum)) [
        | inl bad ↦ rw (bad, After) tt
        | inr (i, e) ↦
            rw (e, After)
              (subst (λ m. OnOk m (λ i. i.inum ≡ inum)) e (decode-inum buf inum).at, refl)
      ]

  other_object :
      (objects : ℕ → Inode) (next q : ℕ) (ip : Inode)
      → q < next
      → (if q == next then ip else objects q).inum ≡ (objects q).inum
  other_object objects next q ip low = rw (neq_false q next (λ e. omega (arith, low, e))) refl

  fill_slot-Taken :
      (slot inum : ℕ) (ip : Inode) (op : FsTxn W)
      → Taken inum op
      → op.fs.icache.entries inum ≡ some slot
      → ip.inum ≡ inum
      → After
          (fill_slot W slot ip op)
          (λ p op'. Taken inum op' × ((op'.fs.objects p).inum ≡ inum) × (p < op'.fs.next_object))
  unfolding fill_slot
  fill_slot-Taken slot inum ip op t there e =
      let next = op.fs.next_object in
      let new : (if next == next then ip else op.fs.objects next).inum ≡ inum =
        rw (same_true next) e in
      (
        record {
          valid = put_obj-Valid ℕ op.fs.icache slot next t.valid;
          room = t.room;
          cached = λ id p h.
              elim (put_obj-held ℕ op.fs.icache slot next inum id p t.valid there h) [
                | inl (mine, obj) ↦ (
                  ap (λ x. (if x == next then ip else op.fs.objects x).inum) obj ∙ new ∙ sym mine,
                  omega (arith, obj),
                )
                | inr old ↦
                    let (num, low) = t.cached id p old in
                    (other_object op.fs.objects next p ip low ∙ num, omega (arith, low))
              ];
          keyed =
              Keyed-same op.fs.objects (λ q. if q == next then ip else op.fs.objects q) next
                (suc next) op.inodes (omega arith)
                (λ q low. other_object op.fs.objects next q ip low) t.keyed;
          new = t.new;
          locks = t.locks;
        },
        new,
        omega arith,
      )

  slot_object-Taken :
      (slot inum : ℕ) (op : FsTxn W)
      → Taken inum op
      → op.fs.icache.entries inum ≡ some slot
      → After
          (slot_object W slot inum op)
          (λ p op'. Taken inum op' × ((op'.fs.objects p).inum ≡ inum) × (p < op'.fs.next_object))
  unfolding slot_object ◌>>=◌
  slot_object-Taken slot inum op t there = elim (Option-cases (op.fs.icache.heap slot).obj) [
    | inr (p, obj) ↦
        let (e, low) = t.cached inum p (held_some ℕ op.fs.icache inum slot there ∙ obj) in
        rw (obj, After) (t, e, low)
    | inl empty ↦
        rw (empty, if_nil)
          (After-bind (λ i op'. (i.inum ≡ inum) × (op' ≡ op)) _ (read_disk_inode W inum op)
            (fill_slot W slot) (read_disk_inode-inum inum op)
            λ i op' h.
              subst
                (λ s. After (fill_slot W slot i s) (λ p op'.
                  Taken inum op' × ((op'.fs.objects p).inum ≡ inum) × (p < op'.fs.next_object)))
                (sym h.1) (fill_slot-Taken slot inum i op t there h.0))
  ]

  -- The inode's lock is the transaction's, and its number is the one asked for.
  pub record Got (inum p : ℕ) (op : FsTxn W) : Type 0 where
    pub owned : Owned W H op
    pub mine : has_inode op.inodes inum ≡ true
    pub number : (op.fs.objects p).inum ≡ inum

  pub get_inode_locked-Got :
      (inum : ℕ) → Ensures (Owned W H) (λ p. Got inum p) (get_inode_locked W inum)
  unfolding get_inode_locked
  get_inode_locked-Got inum =
      Ensures-bind (λ slot op'. (Taken inum op') × (op'.fs.icache.entries inum ≡ some slot)) _ _
        (record { at = lock_inode-Taken inum })
        λ slot.
          Ensures-bind
            (λ p op'. Taken inum op' × ((op'.fs.objects p).inum ≡ inum) × (p < op'.fs.next_object))
            _ _ (record { at = λ op h. slot_object-Taken slot inum op h.0 h.1 })
            λ p.
              Ensures-bind (λ _ op'. Got inum p op') _ _
                (record {
                  at = λ op h.
                      After-map (add_inode W p op) (add_inode-Owned inum p op h.0 h.1 h.2)
                        λ _ op' k. record {
                          owned = k.0;
                          mine = k.2;
                          number = ap (λ o. (o p).inum) k.1 ∙ h.1;
                        };
                })
                λ _. Ensures-pure p
