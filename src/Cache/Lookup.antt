-- ===== src/Cache/Lookup.antt =====
-- cache/cache.go `LookupSlot`: it finds the slot of an id, new or old, and evicts at most the front.
use native.Mathlib.Decide.{ℕ_discrete}
use go_nfsd.Prelude.{
  ℕ, ◌<◌, ◌≡◌, ◌≢◌, ◌⊎◌, inl, inr, refl, sym, ap, ◌∙◌, subst, List, [], ◌∷◌, ◌++◌, length, Bool,
  true, false, leb, leb→le, leb→lt, le→leb, ◌==◌, ==_iff, if◌then◌else◌, Option, none, some,
  Option-cases, Bool-cases, ok, IsU64, arith,
}
use go_nfsd.Cache.{Cache, mk_cache, remove, push_back, touch, add_entry, lookup_slot}
use go_nfsd.Cache.Lists.{All, In, All-In, neq_false, same_true}
use go_nfsd.Cache.Laws.{Linked, Valid, evict_lem, some_same}
use go_nfsd.Cache.Moves.{added, added-Valid, touched, touched-Valid}

module _ (A : Type 0) where
  -- What the slot of an id holds, or nil for an id that is not there.
  abbrev pub held : Cache A → ℕ → Option A
  held c id = elim (c.entries id) [ none ↦ none | some p ↦ (c.heap p).obj ]

  pub record Finds (c c' : Cache A) (id p : ℕ) : Type 0 where
    pub valid : Valid A c'
    pub found : c'.entries id ≡ some p
    pub slot : (c'.heap p).obj ≡ held c id
    pub last : (l : List (ℕ × ℕ)) × (el : ℕ) × (c'.lru ≡ l ++ ((el, p) ∷ []))
    pub kept :
        (j q : ℕ)
        → j ≢ id
        → c'.entries j ≡ some q
        → (c.entries j ≡ some q) × ((c'.heap q).obj ≡ (c.heap q).obj)
    pub evicted :
        (j q : ℕ)
        → c.entries j ≡ some q
        → (c'.entries j ≡ some q)
          ⊎ ((c.entries id ≡ none)
              × (c.cnt ≡ c.sz)
              × (el : ℕ) × (rest : List (ℕ × ℕ)) × (c.lru ≡ (el, q) ∷ rest))

  pub held_none : (c : Cache A) (id : ℕ) → c.entries id ≡ none → held c id ≡ none
  held_none c id h = rw (h, held) refl

  pub held_some : (c : Cache A) (id p : ℕ) → c.entries id ≡ some p → held c id ≡ (c.heap p).obj
  held_some c id p h = rw (h, held) refl

  added-Finds :
      (c : Cache A) (id : ℕ)
      → Valid A c
      → c.cnt < c.sz
      → c.entries id ≡ none
      → Finds c (added A c id) id c.next_entry
  unfolding added
  added-Finds c id v free new = record {
    valid = added-Valid A c id v free new;
    found = rw (same_true id) refl;
    slot = rw (same_true c.next_entry) (sym (held_none c id new));
    last = (c.lru, c.next_element, refl);
    kept = λ j q ne h. old j q ne h;
    evicted = λ j q h. inl (rw (neq_false j id (λ same. cc (ap c.entries same, new, h))) h);
  }
    where
      old :
          (j q : ℕ)
          → j ≢ id
          → (if j == id then some c.next_entry else c.entries j) ≡ some q
          → (c.entries j ≡ some q) × (((added A c id).heap q).obj ≡ (c.heap q).obj)
      old j q ne h =
          let here : c.entries j ≡ some q =
            sym (ap (λ b. if b then some c.next_entry else c.entries j) (neq_false j id ne)) ∙ h in
          let (_, el, i) = v.listed j q here in
          let l = All-In (Linked A c) c.lru (el, q) v.linked i in
          (here, rw (neq_false q c.next_entry (omega (arith, l.entry))) refl)

  touched-Finds :
      (c : Cache A) (id el p : ℕ)
      → Valid A c
      → c.entries id ≡ some p
      → In (el, p) c.lru
      → Finds c (touched A c el p) id p
  unfolding touched
  touched-Finds c id el p v h i = record {
    valid = touched-Valid A c el p v i;
    found = h;
    slot = rw (same_true p) (sym (held_some c id p h));
    last = (remove el c.lru, c.next_element, refl);
    kept = λ j q ne here. (here, same_obj q);
    evicted = λ j q here. inl here;
  }
    where
      same_obj : (q : ℕ) → ((touched A c el p).heap q).obj ≡ (c.heap q).obj
      same_obj q = elim (ℕ_discrete q p) [
        | yes same ↦ rw (same, same_true p) refl
        | no ne ↦ rw (neq_false q p ne) refl
      ]

  found_lem :
      (c : Cache A) (id p : ℕ)
      → Valid A c
      → c.entries id ≡ some p
      → (c' : Cache A) × (lookup_slot A c id ≡ ok (p, c')) × Finds c c' id p
  unfolding lookup_slot touch push_back touched
  found_lem c id p v h =
      let (at_id, el, i) = v.listed id p h in
      let l = All-In (Linked A c) c.lru (el, p) v.linked i in
      let test : (id == (c.heap p).id) ≡ true = (==_iff id (c.heap p).id).1 (sym at_id) in
      (
        touched A c el p,
        rw (h, lookup_slot) (rw test (rw l.back refl)),
        touched-Finds c id el p v h i,
      )

  new_lem :
      (c : Cache A) (id : ℕ)
      → Valid A c
      → c.cnt < c.sz
      → c.entries id ≡ none
      → (c' : Cache A) × (lookup_slot A c id ≡ ok (c.next_entry, c')) × Finds c c' id c.next_entry
  unfolding lookup_slot add_entry push_back added
  new_lem c id v free h =
      let test : leb c.sz c.cnt ≡ false = ground arith in
      (added A c id, rw (h, lookup_slot) (rw test refl), added-Finds c id v free h)

  none_both : (b : Bool) (o : Option ℕ) → o ≡ none → (if b then none else o) ≡ none
  none_both true o h = refl
  none_both false o h = h

  full_lem :
      (c : Cache A) (id : ℕ) (front : ℕ × ℕ) (rest : List (ℕ × ℕ))
      → Valid A c
      → 0 < c.sz
      → c.cnt ≡ c.sz
      → c.lru ≡ front ∷ rest
      → c.entries id ≡ none
      → (p : ℕ) × (c' : Cache A) × (lookup_slot A c id ≡ ok (p, c')) × Finds c c' id p
  unfolding lookup_slot add_entry push_back added
  full_lem c id front rest v pos full e h =
      let (c1, gone, v1, count, same_sz, same_heap, entries1) = evict_lem A c front rest e v in
      let free : c1.cnt < c1.sz = omega arith in
      let new : c1.entries id ≡ none = entries1 id ∙ none_both _ _ h in
      let test : leb c.sz c.cnt ≡ true = le→leb _ _ (omega arith) in
      let f = added-Finds c1 id v1 free new in
      (
        c1.next_entry,
        added A c1 id,
        rw (h, lookup_slot) (rw test (rw gone refl)),
        record {
          valid = f.valid;
          found = f.found;
          slot = f.slot ∙ held_none c1 id new ∙ sym (held_none c id h);
          last = f.last;
          kept = λ j q ne here.
              let (before, same) = f.kept j q ne here in
              (of_if _ _ _ (sym (entries1 j) ∙ before), same ∙ ap (λ x. x.obj) (same_heap q));
          evicted = λ j q here. elim (ℕ_discrete j (c.heap front.1).id) [
            | no ne ↦
                let still : c1.entries j ≡ some q =
                  entries1 j
                  ∙ ap (λ b. if b then none else c.entries j) (neq_false j (c.heap front.1).id ne)
                  ∙ here in
                inl (stays c1 id j q (λ same. cc (ap c1.entries same, new, still)) still)
            | yes same ↦
                let l = subst (Links c) e v.linked in
                let at_q : front.1 ≡ q =
                  some_same (sym l.0.mapped ∙ ap c.entries (sym same) ∙ here) in
                inr (h, full, front.0, rest, subst (λ x. c.lru ≡ (front.0, x) ∷ rest) at_q e)
          ];
        },
      )
    where
      Links : Cache A → List (ℕ × ℕ) → Type 0
      Links c l = All (Linked A c) l

      of_if : (b : Bool) (o : Option ℕ) (q : ℕ) → (if b then none else o) ≡ some q → o ≡ some q
      of_if true o q bad = absurd (cc bad)
      of_if false o q same = same

      stays :
          (c1 : Cache A) (id j q : ℕ)
          → j ≢ id
          → c1.entries j ≡ some q
          → (added A c1 id).entries j ≡ some q
      stays c1 id j q ne h = rw (neq_false j id ne) h

  -- LookupSlot in a cache of at least one slot whose list, map and entries are linked ends without a
  -- panic and leaves them so, with no more slots than the cache has room for. It returns the slot of
  -- the id, with the object that it held or with none if the id was not there, and puts it at the back
  -- of the list. All other slots keep their ids and objects, but for the front of the list, which
  -- alone can go, and only when the id was not there and the cache was full.
  pub lookup_slot_lem :
      (c : Cache A) (id : ℕ)
      → Valid A c
      → 0 < c.sz
      → (p : ℕ) × (c' : Cache A) × (lookup_slot A c id ≡ ok (p, c')) × Finds c c' id p
  lookup_slot_lem c id v pos = elim (Option-cases (c.entries id)) [
    | inr (p, h) ↦ let (c', run, f) = found_lem c id p v h in (p, c', run, f)
    | inl h ↦ elim (Bool-cases (leb c.sz c.cnt)) [
      | inr free ↦
          let (c', run, f) = new_lem c id v (leb→lt _ _ free) h in (c.next_entry, c', run, f)
      | inl full ↦
          let exact : c.cnt ≡ c.sz = omega (arith, v.room, leb→le _ _ full) in
          let (front, rest, e) = nonempty c.lru (omega (arith, v.count, exact, pos)) in
          full_lem c id front rest v pos exact e h
    ]
  ]
    where
      nonempty :
          (l : List (ℕ × ℕ)) → 0 < length l → (q : ℕ × ℕ) × (rest : List (ℕ × ℕ)) × (l ≡ q ∷ rest)
      nonempty [] h = absurd (omega arith)
      nonempty (q ∷ rest) h = (q, rest, refl)

  -- A new cache is linked.
  pub mk_cache-Valid : (sz : ℕ) → IsU64 sz → Valid A (mk_cache A sz)
  unfolding mk_cache
  mk_cache-Valid sz h = record {
    linked = tt;
    distinct = tt;
    listed = λ id p bad. absurd (cc bad);
    count = refl;
    room = omega arith;
    small = h;
  }
