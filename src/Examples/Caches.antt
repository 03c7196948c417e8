-- ===== src/Examples/Caches.antt =====
-- A cache of one slot that holds id 7, and a lookup of id 8.
use go_nfsd.Prelude.{ℕ, ◌<◌, ◌≡◌, refl, none, ok, arith}
use go_nfsd.Cache.{Cache, mk_cache, lookup_slot}
use go_nfsd.Cache.Moves.{added, added-Valid}
use go_nfsd.Cache.Lookup.{Finds, lookup_slot_lem, mk_cache-Valid}

abbrev cache0 : Cache ℕ
cache0 = mk_cache ℕ 1

abbrev cache1 : Cache ℕ
cache1 = added ℕ cache0 7

room0 : cache0.cnt < cache0.sz
unfolding mk_cache
room0 = omega arith

new0 : cache0.entries 7 ≡ none
unfolding mk_cache
new0 = refl

room1 : 0 < cache1.sz
unfolding mk_cache added
room1 = omega arith

lookup_slot_lem_example :
    (p : ℕ) × (c' : Cache ℕ) × (lookup_slot ℕ cache1 8 ≡ ok (p, c')) × Finds ℕ cache1 c' 8 p
lookup_slot_lem_example =
    lookup_slot_lem ℕ cache1 8
      (added-Valid ℕ cache0 7 (mk_cache-Valid ℕ 1 (omega arith)) room0 new0) room1
