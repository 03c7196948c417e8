-- ===== src/Cache.antt =====
-- cache/cache.go: a bounded cache of slots, with the least recently used one evicted. Entries are
-- pointers: `heap` is what they point to, and `lru` is the list of `container/list`, an element and
-- the entry that it holds, front first.
pub mod Lists
pub mod Laws
pub mod Moves
pub mod Lookup
pub mod Slots
use go_nfsd.Prelude.{
  ℕ, suc, ◌+◌, List, [], ◌∷◌, ◌++◌, Bool, not, leb, ◌==◌, if◌then◌else◌, Option, none, some, sub64,
  add64, Outcome, ok, panic, ◌>>=◌,
}

-- `lru.Remove(e)`
unfoldable pub remove : ℕ → List (ℕ × ℕ) → List (ℕ × ℕ)
remove el [] = []
remove el ((e, p) ∷ lru) = let rest = remove el lru in if e == el then lru else (e, p) ∷ rest

module _ (A : Type 0) where
  -- `slot.Obj` is `obj`.
  pub record Entry : Type 0 where
    pub obj : Option A
    pub lru : Option ℕ
    pub id : ℕ

  pub record Cache : Type 0 where
    pub heap : ℕ → Entry
    pub next_entry : ℕ
    pub entries : ℕ → Option ℕ
    pub lru : List (ℕ × ℕ)
    pub next_element : ℕ
    pub sz : ℕ
    pub cnt : ℕ

  unfoldable pub mk_cache : ℕ → Cache
  mk_cache sz = record {
    heap = λ p. record { obj = none; lru = none; id = 0 };
    next_entry = 0;
    entries = λ id. none;
    lru = [];
    next_element = 0;
    sz = sz;
    cnt = 0;
  }

  unfoldable pub evict : Cache → Outcome Cache
  evict c = elim c.lru [
    | [] ↦ panic
    | ◌∷◌ q rest ↦ ok (record c {
      lru = rest;
      entries = λ id. if id == (c.heap q.1).id then none else c.entries id;
      cnt = sub64 c.cnt 1;
    })
  ]

  -- `e.lru = c.lru.PushBack(e)` for the entry `e` at `p`, with its fields before that.
  unfoldable pub push_back : Cache → ℕ → Entry → Cache
  push_back c p e = record c {
    lru = c.lru ++ ((c.next_element, p) ∷ []);
    heap = λ q. if q == p then record e { lru = some c.next_element } else c.heap q;
    next_element = suc c.next_element;
  }

  -- `LookupSlot` of an entry that is there.
  unfoldable pub touch : Cache → ℕ → ℕ → Outcome (ℕ × Cache)
  unfolding remove push_back
  touch c id p = if not (id == (c.heap p).id) then panic else elim (c.heap p).lru [
    | none ↦ ok (p, c)
    | some el ↦ ok (p, push_back (record c { lru = remove el c.lru }) p (c.heap p))
  ]

  -- `LookupSlot` of a new entry: the entry is allocated at `next_entry`.
  unfoldable pub add_entry : Cache → ℕ → Outcome (ℕ × Cache)
  unfolding evict push_back
  add_entry c0 id = do
    c ← (if leb c0.sz c0.cnt then evict c0 else ok c0)
    let p = c.next_entry
    let c' = push_back c p (record { obj = none; lru = none; id = id })
    ok (
      p,
      record c' {
        next_entry = suc p;
        entries = λ j. if j == id then some p else c.entries j;
        cnt = add64 c.cnt 1;
      },
    )

  -- The slot is the entry that the pointer names.
  unfoldable pub lookup_slot : Cache → ℕ → Outcome (ℕ × Cache)
  unfolding touch add_entry
  lookup_slot c id = elim (c.entries id) [ some p ↦ touch c id p | none ↦ add_entry c id ]

  -- `cslot.Obj = obj`, by the code that was given the slot.
  unfoldable pub put_obj : Cache → ℕ → A → Cache
  put_obj c slot obj = record c {
    heap = λ q. if q == slot then record (c.heap slot) { obj = some obj } else c.heap q;
  }
