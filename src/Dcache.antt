-- ===== src/Dcache.antt =====
-- dcache/dcache.go: the cache of a directory's entries, by name. Go's map is a list of pairs without
-- repeated names.
pub mod Laws
use go_nfsd.Prelude.{
  ℕ, Bool, true, false, Option, none, some, List, [], ◌∷◌, name_eq, if◌then◌else◌,
}
use go_nfsd.Nfstypes.{Bytes}

pub record Dentry : Type 0 where
  pub inum : ℕ
  pub off : ℕ

abbrev pub NameMap : Type 0
NameMap = List (Bytes × Dentry)

-- `d, ok := m[name]`
unfoldable pub find : NameMap → Bytes → Option Dentry
find [] name = none
find ((n, d) ∷ m) name = let rest = find m name in if name_eq n name then some d else rest

-- `delete(m, name)`
unfoldable pub delete : NameMap → Bytes → NameMap
delete [] name = []
delete ((n, d) ∷ m) name =
    let rest = delete m name in if name_eq n name then rest else (n, d) ∷ rest

-- `m[name] = d`
unfoldable pub insert : NameMap → Bytes → Dentry → NameMap
unfolding delete
insert m name d = (name, d) ∷ delete m name

pub record Dcache : Type 0 where
  pub cache : NameMap
  pub lastoff : ℕ

unfoldable pub mk_dcache : Dcache
mk_dcache = record { cache = []; lastoff = 0 }

unfoldable pub add : Dcache → Bytes → ℕ → ℕ → Dcache
unfolding insert
add dc name inum off = record dc {
  cache = insert dc.cache name (record { inum = inum; off = off });
}

-- The entry and `ok`: a missing name gives the zero value of `Dentry`.
abbrev pub reply : Option Dentry → Dentry × Bool
reply (some d) = (d, true)
reply none = (record { inum = 0; off = 0 }, false)

unfoldable pub lookup : Dcache → Bytes → Dentry × Bool
lookup dc name = reply (find dc.cache name)

unfoldable pub del : Dcache → Bytes → Bool × Dcache
del dc name =
    let (_, found) = reply (find dc.cache name) in
    (found, if found then record dc { cache = delete dc.cache name } else dc)
