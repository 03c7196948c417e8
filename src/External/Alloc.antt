-- ===== src/External/Alloc.antt =====
-- go-journal/alloc: an allocator over a bitmap. `AllocNum` returns 0 when nothing is free, and
-- `FreeNum` of 0 panics.
use go_nfsd.Prelude.{ℕ, ◌≡◌, ◌≢◌, Bool, true, false, Outcome, ok}

pub record Allocator : Type 1 where
  pub Alloc : Type 0
  pub alloc_num : Alloc → ℕ × Alloc
  pub free_num : Alloc → ℕ → Outcome Alloc

-- `used` says which numbers are taken.
pub record AllocatorLaws (A : Allocator) : Type 0 where
  pub used : A.Alloc → ℕ → Bool
  pub alloc_num_fresh : (a : A.Alloc) → (A.alloc_num a).0 ≢ 0 → used a (A.alloc_num a).0 ≡ false
  pub alloc_num_used :
      (a : A.Alloc) → (A.alloc_num a).0 ≢ 0 → used (A.alloc_num a).1 (A.alloc_num a).0 ≡ true
  pub alloc_num_others :
      (a : A.Alloc) (n : ℕ) → n ≢ (A.alloc_num a).0 → used (A.alloc_num a).1 n ≡ used a n
  pub alloc_num_none :
      (a : A.Alloc) (n : ℕ) → (A.alloc_num a).0 ≡ 0 → used (A.alloc_num a).1 n ≡ used a n
  pub free_num_done :
      (a : A.Alloc) (n : ℕ)
      → n ≢ 0
      → (a' : A.Alloc) × (A.free_num a n ≡ ok a')
        × (used a' n ≡ false)
        × ((m : ℕ) → m ≢ n → used a' m ≡ used a m)
