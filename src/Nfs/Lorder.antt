-- ===== src/Nfs/Lorder.antt =====
-- nfs/lorder.go: the order in which a request locks its inodes. `sort.Slice` on a dozen elements or
-- less is Go's insertion sort, with the comparison that it is given.
use go_nfsd.Prelude.{
  ℕ, zero, suc, ◌-◌, ◌<◌, ◌≡◌, refl, List, [], ◌∷◌, length, get_elem?, set, Bool, none, some, ltb,
  lt→ltb, le→ltb, if◌then◌else◌, arith,
}

-- `inums[i]` of an index in range.
unfoldable pub at : List ℕ → ℕ → ℕ
at l i = elim (get_elem? l i) [ none ↦ 0 | some x ↦ x ]

-- The comparison that `lockInodes` gives: of `inums`, which the sort does not move.
unfoldable pub less : List ℕ → ℕ → ℕ → Bool
unfolding at
less inums i j = ltb (at inums i) (at inums j)

-- The swap of `sorted[j]` and `sorted[j - 1]`.
unfoldable pub swap : List ℕ → ℕ → ℕ → List ℕ
unfolding at
swap l i j = set (set l i (at l j)) j (at l i)

-- The inner loop of the insertion sort, from index `j` down.
unfoldable pub sift : List ℕ → List ℕ → ℕ → List ℕ
unfolding less swap
sift inums sorted zero = sorted
sift inums sorted (suc j) =
    let rest = sift inums (swap sorted (suc j) j) j in if less inums (suc j) j then rest else sorted

-- The outer loop, from index `i` on, for `n` rounds.
unfoldable pub sort_loop : List ℕ → List ℕ → ℕ → ℕ → List ℕ
unfolding sift
sort_loop inums sorted zero i = sorted
sort_loop inums sorted (suc n) i = sort_loop inums (sift inums sorted i) n (suc i)

-- `sorted` of `lockInodes`: the order of the locks.
unfoldable pub lock_order : List ℕ → List ℕ
unfolding sort_loop
lock_order inums = sort_loop inums inums (length inums - 1) 1

unfoldable pub two_inums : ℕ → ℕ → List ℕ
two_inums inum1 inum2 = inum1 ∷ inum2 ∷ []

-- Two inodes are locked in the order of their numbers.
pub lock_order_two :
    (a b : ℕ) → lock_order (two_inums a b) ≡ (if ltb b a then b ∷ a ∷ [] else a ∷ b ∷ [])
unfolding two_inums lock_order
lock_order_two a b = refl

-- Three inodes need not be: of three numbers that are given as the middle, the largest and the
-- smallest, the middle one is locked before the smallest.
pub lock_order_three : (a b c : ℕ) → a < b → b < c → lock_order (b ∷ c ∷ a ∷ []) ≡ b ∷ a ∷ c ∷ []
unfolding lock_order
lock_order_three a b c ab bc = rw (le→ltb c b (omega arith), lt→ltb a c (omega arith)) refl
