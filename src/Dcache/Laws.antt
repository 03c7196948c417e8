-- ===== src/Dcache/Laws.antt =====
-- dcache/dcache.go against a map from names to entries.
use go_nfsd.Prelude.{
  ℕ, ◌≡◌, refl, sym, ap, ◌∙◌, Bool, true, false, Bool-cases, inl, inr, Option, none, some,
  Option-cases, [], ◌∷◌, name_eq, name_eq_iff, name_eq_sound, if◌then◌else◌,
}
use go_nfsd.Nfstypes.{Bytes}
use go_nfsd.Dcache.{Dentry, NameMap, reply, find, delete, insert, Dcache, add, lookup, del}

find-delete :
    (m : NameMap) (name other : Bytes)
    → find (delete m name) other ≡ (if name_eq name other then none else find m other)
unfolding find delete
find-delete [] name other = elim (Bool-cases (name_eq name other)) [
  | inl h ↦ rw h refl
  | inr h ↦ rw h refl
]
find-delete ((n, d) ∷ m) name other = elim (Bool-cases (name_eq n name)) [
  | inl h ↦ rw h (find-delete m name other ∙ hidden h)
  | inr h ↦ rw h (kept h (find-delete m name other))
]
  where
    hidden :
        name_eq n name ≡ true
        → (if name_eq name other then none else find m other)
          ≡ (if name_eq name other then none else if name_eq n other then some d else find m other)
    hidden h = rw (name_eq_sound n name h) (same (name_eq name other))
      where
        same :
            (b : Bool)
            → (if b then none else find m other)
              ≡ (if b then none else if b then some d else find m other)
        same true = refl
        same false = refl

    kept :
        name_eq n name ≡ false
        → find (delete m name) other ≡ (if name_eq name other then none else find m other)
        → (if name_eq n other then some d else find (delete m name) other)
          ≡ (if name_eq name other then none else if name_eq n other then some d else find m other)
    kept h rest = elim (Bool-cases (name_eq n other)) [
      | inl e ↦ rw (e, differs e) refl
      | inr e ↦ rw e rest
    ]
      where
        differs : name_eq n other ≡ true → name_eq name other ≡ false
        differs e = elim (Bool-cases (name_eq name other)) [
          | inl e' ↦
              let same = name_eq_sound n other e ∙ sym (name_eq_sound name other e') in
              absurd (cc (h, (name_eq_iff n name).1 same))
          | inr e' ↦ e'
        ]

-- After Add of a name, Lookup of the name finds the entry, and Lookup of any other name is as before.
pub lookup-add :
    (dc : Dcache) (name : Bytes) (inum off : ℕ) (other : Bytes)
    → lookup (add dc name inum off) other
      ≡ (if name_eq name other then (record { inum = inum; off = off }, true) else lookup dc other)
unfolding add insert find lookup
lookup-add dc name inum off other = elim (Bool-cases (name_eq name other)) [
  | inl h ↦ rw h refl
  | inr h ↦ rw h (ap reply {y = find dc.cache other} (find-delete dc.cache name other ∙ rw h refl))
]

-- Del says whether Lookup of the name finds an entry; after it Lookup of the name finds none, Lookup of
-- any other name is as before, and the last offset stays.
pub del_lem :
    (dc : Dcache) (name other : Bytes)
    → ((del dc name).0 ≡ (lookup dc name).1)
      × (lookup (del dc name).1 other
          ≡ (if name_eq name other then (record { inum = 0; off = 0 }, false) else lookup dc other))
      × ((del dc name).1.lastoff ≡ dc.lastoff)
unfolding del lookup
del_lem dc name other = elim (Option-cases (find dc.cache name)) [
  | inl h ↦ rw h (refl, missing h, refl)
  | inr (d, h) ↦
      rw h (refl, ap reply (find-delete dc.cache name other) ∙ through (name_eq name other) _, refl)
]
  where
    through :
        (b : Bool) (o : Option Dentry)
        → reply (if b then none else o)
          ≡ (if b then (record { inum = 0; off = 0 }, false) else reply o)
    through true o = refl
    through false o = refl

    missing :
        find dc.cache name ≡ none
        → reply (find dc.cache other) ≡ (
            if name_eq name other
            then (record { inum = 0; off = 0 }, false)
            else reply (find dc.cache other))
    missing h = elim (Bool-cases (name_eq name other)) [
      | inl e ↦ rw (e, sym (name_eq_sound name other e), h) refl
      | inr e ↦ rw e refl
    ]
