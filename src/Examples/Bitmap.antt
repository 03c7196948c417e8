-- ===== src/Examples/Bitmap.antt =====
-- An allocator over the list of free numbers, all below a bound and none of them 0.
use go_nfsd.Prelude.{
  ℕ, suc, ◌≡◌, ◌≢◌, refl, Bool, true, false, ◌==◌, ◌||◌, ==_iff, if◌then◌else◌, Outcome, ok, panic,
  arith,
}
use go_nfsd.External.Alloc.{Allocator, AllocatorLaws}

-- The numbers that are taken, and those that are given out next.
abbrev pub Bits : Type 0
Bits = (ℕ → Bool) × ℕ

unfoldable pub alloc_num : Bits → ℕ × Bits
alloc_num (used, n) =
    if used n || n == 0
    then (0, (used, n))
    else (n, ((λ m. if m == n then true else used m), suc n))

unfoldable pub free_num : Bits → ℕ → Outcome Bits
free_num (used, next) n = if n == 0 then panic else ok ((λ m. if m == n then false else used m), n)

abbrev pub bitmap : Allocator
bitmap = record { Alloc = Bits; alloc_num = alloc_num; free_num = free_num }

alloc_num_fresh : (a : Bits) → (alloc_num a).0 ≢ 0 → a.0 (alloc_num a).0 ≡ false
unfolding alloc_num
alloc_num_fresh a h = ground arith

alloc_num_used : (a : Bits) → (alloc_num a).0 ≢ 0 → (alloc_num a).1.0 (alloc_num a).0 ≡ true
unfolding alloc_num
alloc_num_used a h = ground arith

alloc_num_others : (a : Bits) (n : ℕ) → n ≢ (alloc_num a).0 → (alloc_num a).1.0 n ≡ a.0 n
unfolding alloc_num
alloc_num_others a n h = ground arith

free_num_done :
    (a : Bits) (n : ℕ)
    → n ≢ 0
    → (a' : Bits) × (free_num a n ≡ ok a') × (a'.0 n ≡ false) × ((m : ℕ) → m ≢ n → a'.0 m ≡ a.0 m)
unfolding free_num
free_num_done a n h = (
  (λ m. if m == n then false else a.0 m, n),
  ground arith,
  rw ((==_iff n n).1 refl),
  λ m ne. ground arith,
)

alloc_num_none : (a : Bits) (n : ℕ) → (alloc_num a).0 ≡ 0 → (alloc_num a).1.0 n ≡ a.0 n
unfolding alloc_num
alloc_num_none a n h = ground arith

pub bitmap_laws : AllocatorLaws bitmap
bitmap_laws = record {
  used = λ a n. a.0 n;
  alloc_num_fresh = alloc_num_fresh;
  alloc_num_used = alloc_num_used;
  alloc_num_others = alloc_num_others;
  alloc_num_none = alloc_num_none;
  free_num_done = free_num_done;
}

pub used_lem : (a : Bits) (n : ℕ) → bitmap_laws.used a n ≡ a.0 n
unfolding bitmap_laws
used_lem a n = refl
