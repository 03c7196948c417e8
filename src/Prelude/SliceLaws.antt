-- ===== src/Prelude/SliceLaws.antt =====
-- Facts on `splice` and `write_at`, and on the two copying loops of the servers.
use Prim.Native.Nat.{ℕ, zero, suc, ◌+◌, ◌-◌, ◌≤◌, ◌<◌}
use mathlib.Core.Path.{◌≡◌, refl, sym, ap, ◌∙◌}
use mathlib.Core.List.{List, [], ◌∷◌, ◌++◌}
use mathlib.Core.Option.{some}
use native.Mathlib.Omega.{arith}
use go_nfsd.Prelude.Lists.{length, get_elem?, set, take, drop, length-drop}
use go_nfsd.Prelude.Slices.{overlay, splice, extend_over, write_at}

pub length-overlay : (d xs : List ℕ) → length (overlay d xs) ≡ length xs
unfolding overlay
length-overlay [] xs = refl
length-overlay (y ∷ d) [] = refl
length-overlay (y ∷ d) (x ∷ xs) = ap suc (length-overlay d xs)

pub length-splice : (xs : List ℕ) (i : ℕ) (d : List ℕ) → length (splice xs i d) ≡ length xs
unfolding splice
length-splice xs zero d = length-overlay d xs
length-splice [] (suc i) d = refl
length-splice (x ∷ xs) (suc i) d = ap suc (length-splice xs i d)

-- One store, then the rest of the write.
pub splice-set :
    (xs : List ℕ) (i y : ℕ) (d : List ℕ)
    → i < length xs
    → splice (set xs i y) (suc i) d ≡ splice xs i (y ∷ d)
unfolding splice
splice-set [] i y d h = elim h [ ]
splice-set (x ∷ xs) zero y d h = refl
splice-set (x ∷ xs) (suc i) y d h = ap (◌∷◌ x) (splice-set xs i y d (omega arith))

pub splice-nil : (xs : List ℕ) (i : ℕ) → splice xs i [] ≡ xs
unfolding splice
splice-nil xs zero = refl
splice-nil [] (suc i) = refl
splice-nil (x ∷ xs) (suc i) = ap (◌∷◌ x) (splice-nil xs i)

pub drop-eq-cons :
    (xs : List ℕ) (i y : ℕ) → get_elem? xs i ≡ some y → drop i xs ≡ y ∷ drop (suc i) xs
drop-eq-cons [] i y h = cc
drop-eq-cons (x ∷ xs) zero y h = ground arith
drop-eq-cons (x ∷ xs) (suc i) y h = drop-eq-cons xs i y h

pub drop-length : (xs : List ℕ) (n : ℕ) → length xs ≤ n → drop n xs ≡ []
drop-length [] zero h = refl
drop-length [] (suc n) h = refl
drop-length (x ∷ xs) zero h = absurd (omega arith)
drop-length (x ∷ xs) (suc n) h = drop-length xs n (omega arith)

-- The part in use of a block, after a write that starts inside it or at its end.
pub take-overlay :
    (d xs : List ℕ) (s : ℕ)
    → length d ≤ s
    → s ≤ length xs
    → take s (overlay d xs) ≡ extend_over d (take s xs)
unfolding overlay extend_over
take-overlay [] xs s h k = refl
take-overlay (y ∷ d) [] zero h k = absurd (omega arith)
take-overlay (y ∷ d) [] (suc s) h k = absurd (omega arith)
take-overlay (y ∷ d) (x ∷ xs) zero h k = absurd (omega arith)
take-overlay (y ∷ d) (x ∷ xs) (suc s) h k =
    ap (◌∷◌ y) (take-overlay d xs s (omega arith) (omega arith))

pub take-splice :
    (xs : List ℕ) (i : ℕ) (d : List ℕ) (s : ℕ)
    → i + length d ≤ s
    → s ≤ length xs
    → take s (splice xs i d) ≡ write_at (take s xs) i d
unfolding splice write_at
take-splice xs zero d s h k = take-overlay d xs s (omega arith) k
take-splice [] (suc i) d zero h k = absurd (omega arith)
take-splice [] (suc i) d (suc s) h k = absurd (omega arith)
take-splice (x ∷ xs) (suc i) d zero h k = absurd (omega arith)
take-splice (x ∷ xs) (suc i) d (suc s) h k =
    ap (◌∷◌ x) (take-splice xs i d s (omega arith) (omega arith))

extend_over-nil : (d : List ℕ) → extend_over d [] ≡ d
unfolding extend_over
extend_over-nil [] = refl
extend_over-nil (y ∷ d) = refl

-- What a write covers does not depend on what was there: only the part below `i` matters.
extend_over-take :
    (d xs : List ℕ) (s m : ℕ)
    → m ≤ s
    → s ≤ length d
    → extend_over d (take s xs) ≡ extend_over d (take m xs)
unfolding extend_over
extend_over-take [] xs zero zero h k = refl
extend_over-take [] xs (suc s) m h k = absurd (omega arith)
extend_over-take [] xs zero (suc m) h k = absurd (omega arith)
extend_over-take (y ∷ d) xs zero zero h k = refl
extend_over-take (y ∷ d) xs zero (suc m) h k = absurd (omega arith)
extend_over-take (y ∷ d) [] (suc s) zero h k = refl
extend_over-take (y ∷ d) [] (suc s) (suc m) h k = refl
extend_over-take (y ∷ d) (x ∷ xs) (suc s) zero h k =
    ap (◌∷◌ y) (extend_over-take d xs s zero (omega arith) (omega arith) ∙ extend_over-nil d)
extend_over-take (y ∷ d) (x ∷ xs) (suc s) (suc m) h k =
    ap (◌∷◌ y) (extend_over-take d xs s m (omega arith) (omega arith))

pub write_at-take :
    (xs : List ℕ) (i : ℕ) (d : List ℕ) (s m : ℕ)
    → i ≤ m
    → m ≤ s
    → s ≤ i + length d
    → write_at (take s xs) i d ≡ write_at (take m xs) i d
unfolding write_at
write_at-take xs zero d s m g h k = extend_over-take d xs s m h (omega arith)
write_at-take xs (suc i) d zero m g h k = absurd (omega arith)
write_at-take xs (suc i) d (suc s) zero g h k = absurd (omega arith)
write_at-take [] (suc i) d (suc s) (suc m) g h k = refl
write_at-take (x ∷ xs) (suc i) d (suc s) (suc m) g h k =
    ap (◌∷◌ x) (write_at-take xs i d s m (omega arith) (omega arith) (omega arith))

pub length-write_at :
    (xs : List ℕ) (i : ℕ) (d : List ℕ)
    → i + length d ≤ length xs
    → length (write_at xs i d) ≡ length xs
unfolding write_at extend_over
length-write_at xs zero [] h = refl
length-write_at [] zero (y ∷ d) h = absurd (omega arith)
length-write_at (x ∷ xs) zero (y ∷ d) h = ap suc (length-write_at xs zero d (omega arith))
length-write_at [] (suc i) d h = absurd (omega arith)
length-write_at (x ∷ xs) (suc i) d h = ap suc (length-write_at xs i d (omega arith))

-- A write at the end appends.
pub write_at_end : (xs d : List ℕ) → write_at xs (length xs) d ≡ xs ++ d
unfolding write_at
write_at_end [] d = extend_over-nil d
write_at_end (x ∷ xs) d = ap (◌∷◌ x) (write_at_end xs d)

pub length-write_at_grow :
    (xs : List ℕ) (i : ℕ) (d : List ℕ)
    → i ≤ length xs
    → length xs ≤ i + length d
    → length (write_at xs i d) ≡ i + length d
unfolding write_at extend_over
length-write_at_grow [] zero [] h k = omega arith
length-write_at_grow (x ∷ xs) zero [] h k = absurd (omega arith)
length-write_at_grow [] zero (y ∷ d) h k = omega arith
length-write_at_grow (x ∷ xs) zero (y ∷ d) h k =
    omega (arith, length-write_at_grow xs zero d (omega arith) (omega arith))
length-write_at_grow [] (suc i) d h k = absurd (omega arith)
length-write_at_grow (x ∷ xs) (suc i) d h k =
    omega (arith, length-write_at_grow xs i d (omega arith) (omega arith))

pub take-nil : (n : ℕ) → take {A = ℕ} n [] ≡ []
take-nil zero = refl
take-nil (suc n) = refl

pub take_past : (xs : List ℕ) (n : ℕ) → length xs ≤ n → take n xs ≡ xs
take_past [] n h = take-nil n
take_past (x ∷ xs) zero h = absurd (omega arith)
take_past (x ∷ xs) (suc n) h = ap (◌∷◌ x) (take_past xs n (omega arith))

-- A slice inside the first `s` bytes.
pub take-take : (n s : ℕ) (xs : List ℕ) → n ≤ s → take n (take s xs) ≡ take n xs
take-take zero s xs h = refl
take-take (suc n) zero xs h = absurd (omega arith)
take-take (suc n) (suc s) [] h = refl
take-take (suc n) (suc s) (x ∷ xs) h = ap (◌∷◌ x) (take-take n s xs (omega arith))

pub take-drop-take :
    (n i s : ℕ) (xs : List ℕ) → i + n ≤ s → take n (drop i (take s xs)) ≡ take n (drop i xs)
take-drop-take n zero s xs h = take-take n s xs (omega arith)
take-drop-take n (suc i) zero xs h = absurd (omega arith)
take-drop-take n (suc i) (suc s) [] h = refl
take-drop-take n (suc i) (suc s) (x ∷ xs) h = take-drop-take n i s xs (omega arith)

-- Past the end, and up to the end, a slice is all that is left.
pub take-drop_past :
    (f : List ℕ) (offset n : ℕ)
    → length f ≤ offset + n
    → take (length f - offset) (drop offset f) ≡ take n (drop offset f)
take-drop_past f offset n le =
    let left : length (drop offset f) ≡ length f - offset = length-drop offset f in
    take_past (drop offset f) (length f - offset) (omega arith)
    ∙ sym (take_past (drop offset f) n (omega arith))

pub drop-nil : (n : ℕ) → drop {A = ℕ} n [] ≡ []
drop-nil zero = refl
drop-nil (suc n) = refl

pub drop-drop : (m n t : ℕ) (xs : List ℕ) → t ≡ n + m → drop m (drop n xs) ≡ drop t xs
drop-drop m zero t xs e = ap (λ t. drop t xs) (omega arith)
drop-drop m (suc n) t [] e = drop-nil m ∙ sym (drop-nil t)
drop-drop m (suc n) zero (x ∷ xs) e = absurd (omega arith)
drop-drop m (suc n) (suc t) (x ∷ xs) e = drop-drop m n t xs (omega arith)
