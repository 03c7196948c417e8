-- ===== src/Cache/Lists.antt =====
-- Lists of elements and entries: removal, membership, and elements that are all different.
use go_nfsd.Prelude.{
  ℕ, suc, ◌≡◌, ◌≢◌, ◌⊎◌, inl, inr, refl, sym, ap, ◌∙◌, subst, List, [], ◌∷◌, ◌++◌, length, true,
  false, Bool-cases, ◌==◌, ==_iff, arith,
}
use go_nfsd.Cache.{remove}

abbrev pub All : (ℕ × ℕ → Type 0) → List (ℕ × ℕ) → Type 0
All P [] = Unit
All P (q ∷ l) = P q × All P l

abbrev pub In : ℕ × ℕ → List (ℕ × ℕ) → Type 0
In q [] = ⊥
In q (r ∷ l) = (r ≡ q) ⊎ In q l

abbrev pub Distinct : List (ℕ × ℕ) → Type 0
Distinct [] = Unit
Distinct (q ∷ l) = All (λ r. q.0 ≢ r.0) l × Distinct l

pub neq_false : (a b : ℕ) → a ≢ b → (a == b) ≡ false
neq_false a b ne = ground arith

pub same_true : (a : ℕ) → (a == a) ≡ true
same_true a = (==_iff a a).1 refl

pub All-In : (P : ℕ × ℕ → Type 0) (l : List (ℕ × ℕ)) (q : ℕ × ℕ) → All P l → In q l → P q
All-In P [] q all i = absurd i
All-In P (r ∷ l) q all (inl e) = subst P e all.0
All-In P (r ∷ l) q all (inr i) = All-In P l q all.1 i

pub All-zip :
    {P R Q : ℕ × ℕ → Type 0} (l : List (ℕ × ℕ))
    → All P l
    → All R l
    → ((q : ℕ × ℕ) → P q → R q → Q q)
    → All Q l
All-zip [] ps rs f = tt
All-zip (q ∷ l) ps rs f = (f q ps.0 rs.0, All-zip l ps.1 rs.1 f)

pub All-last :
    (P : ℕ × ℕ → Type 0) (l : List (ℕ × ℕ)) (q : ℕ × ℕ) → All P l → P q → All P (l ++ (q ∷ []))
All-last P [] q all p = (p, tt)
All-last P (r ∷ l) q all p = (all.0, All-last P l q all.1 p)

pub Distinct-last :
    (l : List (ℕ × ℕ)) (q : ℕ × ℕ) → Distinct l → All (λ r. r.0 ≢ q.0) l → Distinct (l ++ (q ∷ []))
Distinct-last [] q d new = (tt, tt)
Distinct-last (r ∷ l) q d new =
    (All-last (λ s. r.0 ≢ s.0) l q d.0 new.0, Distinct-last l q d.1 new.1)

pub In-left : (l : List (ℕ × ℕ)) (q r : ℕ × ℕ) → In q l → In q (l ++ (r ∷ []))
In-left [] q r i = absurd i
In-left (s ∷ l) q r (inl e) = inl e
In-left (s ∷ l) q r (inr i) = inr (In-left l q r i)

pub In-last : (l : List (ℕ × ℕ)) (q : ℕ × ℕ) → In q (l ++ (q ∷ []))
In-last [] q = inl refl
In-last (r ∷ l) q = inr (In-last l q)

pub All-remove : (P : ℕ × ℕ → Type 0) (el : ℕ) (l : List (ℕ × ℕ)) → All P l → All P (remove el l)
unfolding remove
All-remove P el [] all = tt
All-remove P el ((e, p) ∷ l) all = elim (Bool-cases (e == el)) [
  | inl here ↦ rw here all.1
  | inr there ↦ rw there (all.0, All-remove P el l all.1)
]

pub Distinct-remove :
    (el : ℕ) (l : List (ℕ × ℕ))
    → Distinct l
    → Distinct (remove el l) × All (λ r. r.0 ≢ el) (remove el l)
unfolding remove
Distinct-remove el [] d = (tt, tt)
Distinct-remove el ((e, p) ∷ l) d = elim (Bool-cases (e == el)) [
  | inl here ↦
      let same = (==_iff e el).0 here in
      rw here (d.1, All-zip l d.0 d.0 (λ q h _ bad. h (same ∙ sym bad)))
  | inr there ↦ rw there (
    (All-remove (λ r. e ≢ r.0) el l d.0, (Distinct-remove el l d.1).0),
    (λ bad. ground (arith, there, bad), (Distinct-remove el l d.1).1),
  )
]

pub length-remove :
    (el p : ℕ) (l : List (ℕ × ℕ)) → In (el, p) l → suc (length (remove el l)) ≡ length l
unfolding remove
length-remove el p [] i = absurd i
length-remove el p ((e, q) ∷ l) i = elim (Bool-cases (e == el)) [
  | inl here ↦ rw here refl
  | inr there ↦ rw there (ap suc (length-remove el p l (later i there)))
]
  where
    later : In (el, p) ((e, q) ∷ l) → (e == el) ≡ false → In (el, p) l
    later (inr i) there = i
    later (inl same) there = absurd (cc (there, (==_iff e el).1 (ap (λ r. r.0) same)))

pub In-remove : (el : ℕ) (q : ℕ × ℕ) (l : List (ℕ × ℕ)) → In q l → q.0 ≢ el → In q (remove el l)
unfolding remove
In-remove el q [] i ne = absurd i
In-remove el q ((e, p) ∷ l) (inr i) ne = elim (Bool-cases (e == el)) [
  | inl here ↦ rw here i
  | inr there ↦ rw there (inr (In-remove el q l i ne))
]
In-remove el q ((e, p) ∷ l) (inl same) ne =
    let test : (e == el) ≡ false = neq_false e el (λ bad. ne (sym (ap (λ r. r.0) same) ∙ bad)) in
    rw test (inl same)

-- Of one element only one entry.
pub In-Distinct : (l : List (ℕ × ℕ)) (e p q : ℕ) → Distinct l → In (e, p) l → In (e, q) l → p ≡ q
In-Distinct [] e p q d i j = absurd i
In-Distinct (r ∷ l) e p q d (inl a) (inl b) = sym (ap (λ s. s.1) a) ∙ ap (λ s. s.1) b
In-Distinct (r ∷ l) e p q d (inl a) (inr j) =
    absurd (All-In (λ s. r.0 ≢ s.0) l (e, q) d.0 j (ap (λ s. s.0) a))
In-Distinct (r ∷ l) e p q d (inr i) (inl b) =
    absurd (All-In (λ s. r.0 ≢ s.0) l (e, p) d.0 i (ap (λ s. s.0) b))
In-Distinct (r ∷ l) e p q d (inr i) (inr j) = In-Distinct l e p q d.1 i j
