-- ===== src/Cache/Moves.antt =====
-- cache/cache.go: an entry that is new or used goes to the back of the list.
use native.Mathlib.Decide.{ℕ_discrete}
use go_nfsd.Prelude.{
  ℕ, suc, ◌<◌, ◌≡◌, ◌≢◌, refl, sym, ap, ◌∙◌, subst, [], ◌∷◌, ◌++◌, length-append, false, ◌==◌,
  ==_iff, if◌then◌else◌, none, some, add64, arith,
}
use go_nfsd.Cache.{Cache, remove}
use go_nfsd.Cache.Lists.{
  All, In, Distinct, neq_false, same_true, All-In, All-zip, All-last, Distinct-last, In-left,
  In-last, All-remove, Distinct-remove, length-remove, In-remove, In-Distinct,
}
use go_nfsd.Cache.Laws.{Linked, Valid, some_same}

module _ (A : Type 0) where
  -- A new entry goes to the back.
  unfoldable pub added : Cache A → ℕ → Cache A
  added c id = record c {
    lru = c.lru ++ ((c.next_element, c.next_entry) ∷ []);
    heap = λ q.
        if q == c.next_entry
        then record { obj = none; lru = some c.next_element; id = id }
        else c.heap q;
    next_element = suc c.next_element;
    next_entry = suc c.next_entry;
    entries = λ j. if j == id then some c.next_entry else c.entries j;
    cnt = add64 c.cnt 1;
  }

  pub added-Valid :
      (c : Cache A) (id : ℕ) → Valid A c → c.cnt < c.sz → c.entries id ≡ none → Valid A (added c id)
  unfolding added
  added-Valid c id v free new = record {
    linked =
        All-last (Linked A (added c id)) c.lru _
          (All-zip c.lru v.linked v.linked (λ r l _. still r l))
          (record {
            mapped = rw (same_true c.next_entry) (rw (same_true id) refl);
            back = rw (same_true c.next_entry) refl;
            element = omega arith;
            entry = omega arith;
          });
    distinct =
        Distinct-last c.lru _ v.distinct
          (All-zip c.lru v.linked v.linked (λ r l _ same. lt_ne _ _ l.element same));
    listed = λ j p h. where_is j p h;
    count =
        omega (arith, v.count, v.small, length-append c.lru ((c.next_element, c.next_entry) ∷ []));
    room = omega (arith, v.small);
    small = v.small;
  }
    where
      lt_ne : (a b : ℕ) → a < b → a ≢ b
      lt_ne a b lt = omega arith

      still : (r : ℕ × ℕ) → Linked A c r → Linked A (added c id) r
      still r l =
          let old : (r.1 == c.next_entry) ≡ false = neq_false _ _ (lt_ne _ _ l.entry) in
          let other : ((c.heap r.1).id == id) ≡ false =
            neq_false _ _ (λ same. cc (ap c.entries same, new, l.mapped)) in
          record {
            mapped = rw old (rw other l.mapped);
            back = rw old l.back;
            element = omega (arith, l.element);
            entry = omega (arith, l.entry);
          }

      where_is :
          (j p : ℕ)
          → (added c id).entries j ≡ some p
          → (((added c id).heap p).id ≡ j) × (el : ℕ) × In (el, p) (added c id).lru
      where_is j p h = elim (ℕ_discrete j id) [
        | yes same ↦
            let at_new : c.next_entry ≡ p = some_same (
              sym (ap (λ b. if b then some c.next_entry else c.entries j) ((==_iff j id).1 same))
              ∙ h) in
            subst (λ k. (((added c id).heap k).id ≡ j) × (el : ℕ) × In (el, k) (added c id).lru)
              at_new (rw (same_true c.next_entry) (sym same), c.next_element, In-last c.lru _)
        | no ne ↦
            let here : c.entries j ≡ some p =
              sym (ap (λ b. if b then some c.next_entry else c.entries j) (neq_false j id ne))
              ∙ h in
            let (at_id, el, i) = v.listed j p here in
            let l = All-In (Linked A c) c.lru (el, p) v.linked i in
            let old : (p == c.next_entry) ≡ false = neq_false _ _ (lt_ne _ _ l.entry) in
            (rw old at_id, el, In-left c.lru _ _ i)
      ]

  -- An entry that is used goes to the back.
  unfoldable pub touched : Cache A → ℕ → ℕ → Cache A
  touched c el p = record c {
    lru = remove el c.lru ++ ((c.next_element, p) ∷ []);
    heap = λ q. if q == p then record (c.heap p) { lru = some c.next_element } else c.heap q;
    next_element = suc c.next_element;
  }

  pub touched-Valid :
      (c : Cache A) (el p : ℕ) → Valid A c → In (el, p) c.lru → Valid A (touched c el p)
  unfolding touched
  touched-Valid c el p v i = record {
    linked =
        All-last (Linked A (touched c el p)) (remove el c.lru) _
          (All-zip (remove el c.lru) (All-remove (Linked A c) el c.lru v.linked) others.1
            (λ r l ne. still r l ne))
          (record {
            mapped = rw (same_true p) l0.mapped;
            back = rw (same_true p) refl;
            element = omega arith;
            entry = l0.entry;
          });
    distinct = Distinct-last (remove el c.lru) _ others.0 (
        All-zip (remove el c.lru) (All-remove (Linked A c) el c.lru v.linked) others.1
          (λ r l _ same. lt_ne _ _ l.element same));
    listed = λ j q h. where_is j q h;
    count = omega (
      arith,
      v.count,
      length-remove el p c.lru i,
      length-append (remove el c.lru) ((c.next_element, p) ∷ []),
    );
    room = v.room;
    small = v.small;
  }
    where
      lt_ne : (a b : ℕ) → a < b → a ≢ b
      lt_ne a b lt = omega arith

      l0 : Linked A c (el, p)
      l0 = All-In (Linked A c) c.lru (el, p) v.linked i

      others : Distinct (remove el c.lru) × All (λ r. r.0 ≢ el) (remove el c.lru)
      others = Distinct-remove el c.lru v.distinct

      still : (r : ℕ × ℕ) → Linked A c r → r.0 ≢ el → Linked A (touched c el p) r
      still r l ne =
          let old : (r.1 == p) ≡ false =
            neq_false _ _
              (λ same. ne (some_same (sym l.back ∙ ap (λ k. (c.heap k).lru) same ∙ l0.back))) in
          record {
            mapped = rw old l.mapped;
            back = rw old l.back;
            element = omega (arith, l.element);
            entry = l.entry;
          }

      where_is :
          (j q : ℕ)
          → c.entries j ≡ some q
          → (((touched c el p).heap q).id ≡ j) × (e : ℕ) × In (e, q) (touched c el p).lru
      where_is j q h = elim (ℕ_discrete q p) [
        | yes same ↦
            subst
              (λ k. (((touched c el p).heap k).id ≡ j) × (e : ℕ) × In (e, k) (touched c el p).lru)
              (sym same)
              (
                rw (same_true p) (ap (λ k. (c.heap k).id) (sym same) ∙ (v.listed j q h).0),
                c.next_element,
                In-last (remove el c.lru) _,
              )
        | no ne ↦
            let (at_id, e, k) = v.listed j q h in
            let old : (q == p) ≡ false = neq_false _ _ ne in
            let moved : e ≢ el = λ same.
              ne (In-Distinct c.lru el q p v.distinct (subst (λ x. In (x, q) c.lru) same k) i) in
            (rw old at_id, e, In-left (remove el c.lru) _ _ (In-remove el (e, q) c.lru k moved))
      ]
