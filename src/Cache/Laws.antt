-- ===== src/Cache/Laws.antt =====
-- cache/cache.go: the list, the map and the entries stay linked, and a lookup finds its slot.
use native.Mathlib.Decide.{ℕ_discrete}
use go_nfsd.Prelude.{
  ℕ, suc, ◌≤◌, ◌<◌, ◌≡◌, ◌≢◌, inl, inr, refl, sym, ap, ◌∙◌, subst, List, ◌∷◌, length, true, false,
  ◌==◌, ==_iff, if◌then◌else◌, none, some, sub64, ok, IsU64, arith,
}
use go_nfsd.Cache.{Cache, evict}
use go_nfsd.Cache.Lists.{All, In, Distinct, neq_false, All-zip}

pub some_same {ℓ} : {A : Type ℓ} {x y : A} → some x ≡ some y → x ≡ y
some_same e = cc e

module _ (A : Type 0) where
  -- An element of the list and the entry that it holds know each other, and the map knows the entry.
  pub record Linked (c : Cache A) (q : ℕ × ℕ) : Type 0 where
    pub mapped : c.entries (c.heap q.1).id ≡ some q.1
    pub back : (c.heap q.1).lru ≡ some q.0
    pub element : q.0 < c.next_element
    pub entry : q.1 < c.next_entry

  pub record Valid (c : Cache A) : Type 0 where
    pub linked : All (Linked c) c.lru
    pub distinct : Distinct c.lru
    pub listed :
        (id p : ℕ) → c.entries id ≡ some p → ((c.heap p).id ≡ id) × (el : ℕ) × In (el, p) c.lru
    pub count : c.cnt ≡ length c.lru
    pub room : c.cnt ≤ c.sz
    pub small : IsU64 c.sz

  -- The front of the list goes.
  pub evict_lem :
      (c : Cache A) (q : ℕ × ℕ) (rest : List (ℕ × ℕ))
      → c.lru ≡ q ∷ rest
      → Valid c
      → (c' : Cache A) × (evict A c ≡ ok c')
        × Valid c'
        × (suc c'.cnt ≡ c.cnt)
        × (c'.sz ≡ c.sz)
        × ((p : ℕ) → c'.heap p ≡ c.heap p)
        × ((j : ℕ) → c'.entries j ≡ (if j == (c.heap q.1).id then none else c.entries j))
  unfolding evict
  evict_lem c q rest e v = (
    record c {
      lru = rest;
      entries = λ j. if j == (c.heap q.1).id then none else c.entries j;
      cnt = sub64 c.cnt 1;
    },
    rw e refl,
    record {
      linked = All-zip rest links.1 apart.0 (λ r l ne. record {
        mapped = rw (other r links.0 l ne) l.mapped;
        back = l.back;
        element = l.element;
        entry = l.entry;
      });
      distinct = apart.1;
      listed = λ j p h. still j p h;
      count = less;
      room = omega (arith, less, v.room, v.count, len);
      small = v.small;
    },
    omega (arith, less, v.count, len),
    refl,
    λ p. refl,
    λ j. refl,
  )
    where
      links : All (Linked c) (q ∷ rest)
      links = subst (All (Linked c)) e v.linked

      apart : Distinct (q ∷ rest)
      apart = subst Distinct e v.distinct

      len : length c.lru ≡ suc (length rest)
      len = ap length e

      less : sub64 c.cnt 1 ≡ length rest
      less = omega (arith, v.count, len, v.room, v.small)

      other :
          (r : ℕ × ℕ)
          → Linked c q
          → Linked c r
          → q.0 ≢ r.0
          → ((c.heap r.1).id == (c.heap q.1).id) ≡ false
      other r lq lr ne = neq_false _ _ (λ same_id.
          let same : r.1 ≡ q.1 = some_same (sym lr.mapped ∙ ap c.entries same_id ∙ lq.mapped) in
          ne (some_same (sym lq.back ∙ sym (ap (λ p. (c.heap p).lru) same) ∙ lr.back)))

      still :
          (j p : ℕ)
          → (if j == (c.heap q.1).id then none else c.entries j) ≡ some p
          → ((c.heap p).id ≡ j) × (el : ℕ) × In (el, p) rest
      still j p h = elim (ℕ_discrete j (c.heap q.1).id) [
        | yes same ↦
            let gone : (j == (c.heap q.1).id) ≡ true = (==_iff j (c.heap q.1).id).1 same in
            absurd (cc (gone, h))
        | no ne ↦
            let here : c.entries j ≡ some p =
              sym (ap (λ b. if b then none else c.entries j) (neq_false j (c.heap q.1).id ne))
              ∙ h in
            let (at_id, el, i) = v.listed j p here in
            (
              at_id,
              el,
              elim (subst (In (el, p)) e i) [
                | inl first ↦ absurd (ne (sym at_id ∙ sym (ap (λ r. (c.heap r.1).id) first)))
                | inr later ↦ later
              ],
            )
      ]
