-- ===== src/Examples/Locks.antt =====
-- A lock map as the list of the locks that are held.
use go_nfsd.Prelude.{ℕ, suc, ◌≡◌, refl, List, [], ◌∷◌, ◌==◌, ==_iff, if◌then◌else◌, arith}
use go_nfsd.External.Lockmap.{Lockmap, LockmapLaws}

unfoldable pub release : List ℕ → ℕ → List ℕ
release [] n = []
release (x ∷ l) n = if x == n then l else x ∷ release l n

abbrev pub locks : Lockmap
locks = record { LockMap = List ℕ; mk_lock_map = []; acquire = λ l n. n ∷ l; release = release }

release-acquire : (l : List ℕ) (n : ℕ) → release (n ∷ l) n ≡ l
unfolding release
release-acquire l n = rw ((==_iff n n).1 refl)

unfoldable pub count : List ℕ → ℕ → ℕ
count [] n = 0
count (x ∷ l) n = if x == n then suc (count l n) else count l n

count-acquire :
    (l : List ℕ) (n m : ℕ) → count l n ≡ 0 → count (n ∷ l) m ≡ (if n == m then 1 else count l m)
unfolding count
count-acquire l n m h = grind arith

count-release :
    (l : List ℕ) (n m : ℕ)
    → count l n ≡ 1
    → count (release l n) m ≡ (if n == m then 0 else count l m)
unfolding count release
count-release [] n m h = absurd (omega (arith, h))
count-release (x ∷ l) n m h = let rest = count-release l n m in grind arith

pub locks_laws : LockmapLaws locks
unfolding count
locks_laws = record {
  release-acquire = release-acquire;
  holders = count;
  holders-mk_lock_map = λ n. refl;
  holders-acquire = count-acquire;
  holders-release = count-release;
}
