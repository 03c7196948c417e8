-- ===== src/Prelude/Slices.antt =====
-- Go's byte slices: an access out of range panics, and so does `make` with a length that is more than
-- the runtime can address. Memory that runs out below that limit is not modelled.
use Prim.Native.Nat.{ℕ, zero, suc, ◌^◌}
use mathlib.Core.List.{List, [], ◌∷◌}
use mathlib.Core.Option.{none, some}
use go_nfsd.Prelude.Lists.{length, get_elem?, set, replicate}
use go_nfsd.Prelude.Tests.{ltb, leb, if◌then◌else◌}
use go_nfsd.Prelude.Outcomes.{Outcome, ok, panic}

-- `d[i]`
unfoldable pub index : List ℕ → ℕ → Outcome ℕ
index d i = elim (get_elem? d i) [ none ↦ panic | some x ↦ ok x ]

-- `d[i] = v`
unfoldable pub store : List ℕ → ℕ → ℕ → Outcome (List ℕ)
store d i v = if ltb i (length d) then ok (set d i v) else panic

-- The most bytes that one allocation may have, Go's maxAlloc on a 64-bit machine.
abbrev pub max_alloc : ℕ
max_alloc = 2 ^ 48

-- `make([]byte, n)`
unfoldable pub make_bytes : ℕ → Outcome (List ℕ)
make_bytes n = if leb n max_alloc then ok (replicate n 0) else panic

-- The write at `i` of as many bytes of `d` as there is room for.
unfoldable pub overlay : List ℕ → List ℕ → List ℕ
overlay [] xs = xs
overlay (y ∷ d) [] = []
overlay (y ∷ d) (x ∷ xs) = y ∷ overlay d xs

unfoldable pub splice : List ℕ → ℕ → List ℕ → List ℕ
unfolding overlay
splice xs zero d = overlay d xs
splice [] (suc i) d = []
splice (x ∷ xs) (suc i) d = x ∷ splice xs i d

-- The write at `i` that grows the list when `d` reaches beyond its end.
unfoldable pub extend_over : List ℕ → List ℕ → List ℕ
extend_over [] xs = xs
extend_over (y ∷ d) [] = y ∷ d
extend_over (y ∷ d) (x ∷ xs) = y ∷ extend_over d xs

unfoldable pub write_at : List ℕ → ℕ → List ℕ → List ℕ
unfolding extend_over
write_at xs zero d = extend_over d xs
write_at [] (suc i) d = d
write_at (x ∷ xs) (suc i) d = x ∷ write_at xs i d
