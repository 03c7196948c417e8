-- ===== src/Cache/Slots.antt =====
-- cache/cache.go: the object that its user puts into a slot.
use native.Mathlib.Decide.{ℕ_discrete}
use go_nfsd.Prelude.{ℕ, ◌≡◌, ◌≢◌, ◌⊎◌, inl, inr, refl, sym, ap, ◌∙◌, some, Option-cases}
use go_nfsd.Cache.{Cache, put_obj}
use go_nfsd.Cache.Lists.{neq_false, same_true, All-zip}
use go_nfsd.Cache.Laws.{Valid, some_same}
use go_nfsd.Cache.Lookup.{held, held_none, held_some}

module _ (A : Type 0) where
  -- The entry of the slot, and the others.
  at_slot :
      (c : Cache A) (slot : ℕ) (obj : A)
      → (put_obj A c slot obj).heap slot ≡ record (c.heap slot) { obj = some obj }
  unfolding put_obj
  at_slot c slot obj = rw (same_true slot) refl

  off_slot :
      (c : Cache A) (slot : ℕ) (obj : A) (q : ℕ)
      → q ≢ slot
      → (put_obj A c slot obj).heap q ≡ c.heap q
  unfolding put_obj
  off_slot c slot obj q ne = rw (neq_false q slot ne) refl

  same_id :
      (c : Cache A) (slot : ℕ) (obj : A) (q : ℕ)
      → ((put_obj A c slot obj).heap q).id ≡ (c.heap q).id
  same_id c slot obj q = elim (ℕ_discrete q slot) [
    | yes e ↦
        ap (λ x. ((put_obj A c slot obj).heap x).id) e
        ∙ ap (λ x. x.id) (at_slot c slot obj)
        ∙ ap (λ x. (c.heap x).id) (sym e)
    | no ne ↦ ap (λ x. x.id) (off_slot c slot obj q ne)
  ]

  same_lru :
      (c : Cache A) (slot : ℕ) (obj : A) (q : ℕ)
      → ((put_obj A c slot obj).heap q).lru ≡ (c.heap q).lru
  same_lru c slot obj q = elim (ℕ_discrete q slot) [
    | yes e ↦
        ap (λ x. ((put_obj A c slot obj).heap x).lru) e
        ∙ ap (λ x. x.lru) (at_slot c slot obj)
        ∙ ap (λ x. (c.heap x).lru) (sym e)
    | no ne ↦ ap (λ x. x.lru) (off_slot c slot obj q ne)
  ]

  pub put_obj-Valid :
      (c : Cache A) (slot : ℕ) (obj : A) → Valid A c → Valid A (put_obj A c slot obj)
  unfolding put_obj
  put_obj-Valid c slot obj v = record {
    linked = All-zip c.lru v.linked v.linked λ q l _. record {
      mapped = ap c.entries (same_id c slot obj q.1) ∙ l.mapped;
      back = same_lru c slot obj q.1 ∙ l.back;
      element = l.element;
      entry = l.entry;
    };
    distinct = v.distinct;
    listed =
        λ id p h. let (e, el, there) = v.listed id p h in (same_id c slot obj p ∙ e, el, there);
    count = v.count;
    room = v.room;
    small = v.small;
  }

  -- The slot of an id holds the new object; all other ids hold what they held.
  pub put_obj-held :
      (c : Cache A) (slot : ℕ) (obj : A) (id j : ℕ) (a : A)
      → Valid A c
      → c.entries id ≡ some slot
      → held A (put_obj A c slot obj) j ≡ some a
      → ((j ≡ id) × (a ≡ obj)) ⊎ (held A c j ≡ some a)
  unfolding put_obj
  put_obj-held c slot obj id j a v there h = elim (Option-cases (c.entries j)) [
    | inl none_there ↦ absurd (cc (h, held_none A (put_obj A c slot obj) j none_there))
    | inr (q, at_j) ↦
        let holds : ((put_obj A c slot obj).heap q).obj ≡ some a =
          sym (held_some A (put_obj A c slot obj) j q at_j) ∙ h in
        elim (ℕ_discrete q slot) [
          | yes e ↦
              let new : some a ≡ some obj =
                sym holds
                ∙ ap (λ x. ((put_obj A c slot obj).heap x).obj) e
                ∙ ap (λ x. x.obj) (at_slot c slot obj) in
              let one : j ≡ id =
                sym (v.listed j q at_j).0
                ∙ ap (λ x. (c.heap x).id) e
                ∙ (v.listed id slot there).0 in
              inl (one, some_same new)
          | no ne ↦
              inr
                (held_some A c j q at_j ∙ sym (ap (λ x. x.obj) (off_slot c slot obj q ne)) ∙ holds)
        ]
  ]
