-- ===== src/Prelude/Strings.antt =====
-- Equality of Go strings, and maps keyed by strings.
use Prim.Native.Nat.{ℕ}
use mathlib.Core.Path.{◌≡◌, refl}
use mathlib.Core.Logic.{◌↔◌}
use mathlib.Core.Bool.{Bool, true, false, ◌&&◌}
use mathlib.Core.List.{List, [], ◌∷◌}
use go_nfsd.Prelude.Tests.{◌==◌, ==_iff}
use native.Mathlib.Omega.{arith}

unfoldable pub name_eq : List ℕ → List ℕ → Bool
name_eq [] [] = true
name_eq [] (y ∷ n) = false
name_eq (x ∷ m) [] = false
name_eq (x ∷ m) (y ∷ n) = x == y && name_eq m n

pub name_eq_sound : (m n : List ℕ) → name_eq m n ≡ true → m ≡ n
unfolding name_eq
name_eq_sound [] [] h = refl
name_eq_sound [] (y ∷ n) h = cc
name_eq_sound (x ∷ m) [] h = cc
name_eq_sound (x ∷ m) (y ∷ n) h = ground (arith, name_eq_sound m n)

pub name_eq_refl : (m : List ℕ) → name_eq m m ≡ true
unfolding name_eq
name_eq_refl [] = refl
name_eq_refl (x ∷ m) = rw ((==_iff x x).1 refl) (name_eq_refl m)

pub name_eq_iff : (m n : List ℕ) → (name_eq m n ≡ true) ↔ (m ≡ n)
name_eq_iff m n = (name_eq_sound m n, λ same. rw same (name_eq_refl n))
