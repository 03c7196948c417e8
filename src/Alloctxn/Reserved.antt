-- ===== src/Alloctxn/Reserved.antt =====
-- alloctxn/alloctxn.go: which numbers an allocator holds for a transaction.
use native.Mathlib.Decide.{ℕ_discrete}
use go_nfsd.Prelude.{
  ℕ, ◌≡◌, ◌≢◌, inl, inr, refl, sym, ◌∙◌, Bool, true, false, Bool-cases, List, [], ◌∷◌, ◌++◌, ◌==◌,
  ==_iff, if◌then◌else◌, ok, arith,
}
use go_nfsd.External.World.{World, WorldLaws}
use go_nfsd.Alloctxn.{free_nums}

abbrev pub has : List ℕ → ℕ → Bool
has [] n = false
has (x ∷ l) n = if n == x then true else has l n

pub has-append : (l : List ℕ) (x n : ℕ) → has (l ++ (x ∷ [])) n ≡ (if n == x then true else has l n)
has-append [] x n = refl
has-append (y ∷ l) x n = rw (has-append l x n) (swap (n == y) (n == x) (has l n))
  where
    swap :
        (a b c : Bool)
        → (if a then true else if b then true else c) ≡ (if b then true else if a then true else c)
    swap true true c = refl
    swap true false c = refl
    swap false b c = refl

abbrev pub NoZero : List ℕ → Type 0
NoZero l = (n : ℕ) → has l n ≡ true → n ≢ 0

pub NoZero-append : (l : List ℕ) (x : ℕ) → NoZero l → x ≢ 0 → NoZero (l ++ (x ∷ []))
NoZero-append l x none ne n h = elim (ℕ_discrete n x) [
  | yes same ↦ rw same ne
  | no other ↦
      let test : (n == x) ≡ false = ground arith in none n (sym (rw (has-append, test) refl) ∙ h)
]

module _ (W : World) (H : WorldLaws W) where
  -- The allocator `a` holds what it held at the start, and the numbers of a list, all free then.
  pub record Reserves (start : ℕ → Bool) (a : W.Alloc) (taken : List ℕ) : Type 0 where
    pub held : (n : ℕ) → H.used a n ≡ (if has taken n then true else start n)
    pub fresh : (n : ℕ) → has taken n ≡ true → (n ≢ 0) × (start n ≡ false)

  -- One more number from the allocator.
  pub Reserves-alloc_num :
      (start : ℕ → Bool) (a : W.Alloc) (taken : List ℕ)
      → Reserves start a taken
      → (W.alloc_num a).0 ≢ 0
      → Reserves start (W.alloc_num a).1 (taken ++ ((W.alloc_num a).0 ∷ []))
  Reserves-alloc_num start a taken r some_num = record {
    held = λ n. elim (ℕ_discrete n (W.alloc_num a).0) [
      | yes same ↦ rw (has-append, same, (==_iff num num).1 refl) (H.alloc_num_used a some_num)
      | no other ↦ rw (has-append, test n other) (H.alloc_num_others a n other ∙ r.held n)
    ];
    fresh = λ n h. elim (ℕ_discrete n (W.alloc_num a).0) [
      | yes same ↦ rw same (some_num, was_free (H.alloc_num_fresh a some_num) (r.held num))
      | no other ↦ r.fresh n (sym (rw (has-append, test n other) refl) ∙ h)
    ];
  }
    where
      num : ℕ
      num = (W.alloc_num a).0

      test : (n : ℕ) → n ≢ num → (n == num) ≡ false
      test n ne = ground arith

      was_free :
          H.used a num ≡ false
          → H.used a num ≡ (if has taken num then true else start num)
          → start num ≡ false
      was_free free h = ground arith

  pub Reserves-none :
      (start : ℕ → Bool) (a : W.Alloc) (taken : List ℕ)
      → Reserves start a taken
      → (W.alloc_num a).0 ≡ 0
      → Reserves start (W.alloc_num a).1 taken
  Reserves-none start a taken r none = record {
    held = λ n. H.alloc_num_none a n none ∙ r.held n;
    fresh = r.fresh;
  }

  if_false : (b : Bool) → (if b then false else false) ≡ false
  if_false true = refl
  if_false false = refl

  -- Freeing a list of numbers, none of them 0.
  pub free_nums_lem :
      (a : W.Alloc) (nums : List ℕ)
      → NoZero nums
      → (a' : W.Alloc) × (free_nums W a nums ≡ ok a')
        × ((n : ℕ) → H.used a' n ≡ (if has nums n then false else H.used a n))
  unfolding free_nums
  free_nums_lem a [] h = (a, refl, λ n. refl)
  free_nums_lem a (x ∷ nums) h =
      let (a1, run1, free1, others1) = H.free_num_done a x (h x (rw ((==_iff x x).1 refl) refl)) in
      let (a2, run2, all2) = free_nums_lem a1 nums (λ n hn. h n (later n hn)) in
      (a2, rw run1 run2, λ n. all2 n ∙ both n (free1) (others1 n))
    where
      later : (n : ℕ) → has nums n ≡ true → (if n == x then true else has nums n) ≡ true
      later n hn = ground arith

      both :
          {a1 : W.Alloc} (n : ℕ)
          → H.used a1 x ≡ false
          → (n ≢ x → H.used a1 n ≡ H.used a n)
          → (if has nums n then false else H.used a1 n)
            ≡ (if (if n == x then true else has nums n) then false else H.used a n)
      both {a1} n free same = elim (ℕ_discrete n x) [
        | yes e ↦ rw (e, (==_iff x x).1 refl, free) (if_false (has nums x))
        | no ne ↦ let test : (n == x) ≡ false = ground arith in rw (test, same ne) refl
      ]

  -- Giving back what is reserved.
  pub give_back :
      (start : ℕ → Bool) (a : W.Alloc) (taken : List ℕ)
      → Reserves start a taken
      → (a' : W.Alloc) × (free_nums W a taken ≡ ok a') × ((n : ℕ) → H.used a' n ≡ start n)
  give_back start a taken r =
      let (a', run, all) = free_nums_lem a taken (λ n h. (r.fresh n h).0) in
      (a', run, λ n. all n ∙ back n)
    where
      back : (n : ℕ) → (if has taken n then false else H.used a n) ≡ start n
      back n = elim (Bool-cases (has taken n)) [
        | inl h ↦ rw h (sym (r.fresh n h).1)
        | inr h ↦ rw h (r.held n ∙ rw h refl)
      ]
