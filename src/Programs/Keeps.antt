-- ===== src/Programs/Keeps.antt =====
-- What programs keep of their state, one rule for each way to build a program.
use go_nfsd.Prelude.{
  ◌≡◌, refl, Outcome, ok, panic, Bool, true, false, Option, none, some, if◌then◌else◌,
}
use go_nfsd.Programs.{
  Result, returns, panics, waits, unfinished, Prog, pure, gets, crash, out_of_rounds, lift, ◌>>=◌,
  if_nil, and_then,
}

-- A property of what is returned and of the state after.
abbrev pub After : {S A : Type 0} → Result (A × S) → (A → S → Type 0) → Type 0
After (returns (a, s)) Q = Q a s
After panics Q = Unit
After waits Q = Unit
After unfinished Q = Unit

pub After-bind :
    {S A B : Type 0} (Q : A → S → Type 0) (R : B → S → Type 0) (r : Result (A × S))
    (f : A → Prog S B)
    → After r Q
    → ((a : A) (s : S) → Q a s → After (f a s) R)
    → After (and_then r f) R
After-bind Q R (returns (a, s)) f h k = k a s h
After-bind Q R panics f h k = tt
After-bind Q R waits f h k = tt
After-bind Q R unfinished f h k = tt

pub After-map :
    {S A : Type 0} {Q R : A → S → Type 0} (r : Result (A × S))
    → After r Q
    → ((a : A) (s : S) → Q a s → R a s)
    → After r R
After-map (returns (a, s)) h k = k a s h
After-map panics h k = tt
After-map waits h k = tt
After-map unfinished h k = tt

-- Where `P` holds before, `Q` holds of what is returned and the state after.
pub record Ensures {S A : Type 0} (P : S → Type 0) (Q : A → S → Type 0) (m : Prog S A)
    : Type 0 where
  pub at : (s : S) → P s → After (m s) Q

-- `Q` holds after, whatever is returned.
abbrev pub Goes : {S A : Type 0} (P Q : S → Type 0) (m : Prog S A) → Type 0
Goes P Q m = Ensures P (λ _. Q) m

module _ {S A : Type 0} {P : S → Type 0} where
  pub Goes-pure : (a : A) → Goes P P (pure a)
  unfolding pure
  Goes-pure a = record { at = λ s h. h }

  pub Goes-gets : (f : S → A) → Goes P P (gets f)
  unfolding gets
  Goes-gets f = record { at = λ s h. h }

  pub Goes-lift : (m : Outcome A) → Goes P P (lift m)
  unfolding lift
  Goes-lift (ok a) = record { at = λ s h. h }
  Goes-lift panic = record { at = λ s h. tt }

pub Ensures-pure : {S A : Type 0} {Q : A → S → Type 0} (a : A) → Ensures (λ s. Q a s) Q (pure a)
unfolding pure
Ensures-pure a = record { at = λ s h. h }

-- A pure program is left in the state that it was started in.
pub Ensures-pure_from :
    {S A : Type 0} {P : S → Type 0} {Q : A → S → Type 0} (a : A)
    → ((s : S) → P s → Q a s)
    → Ensures P Q (pure a)
unfolding pure
Ensures-pure_from a k = record { at = λ s h. k s h }

anywhere : {S A : Type 0} (r : Result (A × S)) → After r (λ _ _. Unit)
anywhere (returns _) = tt
anywhere panics = tt
anywhere waits = tt
anywhere unfinished = tt

pub Ensures-out_of_rounds :
    {S A : Type 0} {P : S → Type 0} {Q : A → S → Type 0} → Ensures P Q (out_of_rounds {A = A})
unfolding out_of_rounds
Ensures-out_of_rounds = record { at = λ s h. tt }

pub Ensures-crash :
    {S A : Type 0} {P : S → Type 0} {Q : A → S → Type 0} → Ensures P Q (crash {A = A})
unfolding crash
Ensures-crash = record { at = λ s h. tt }

module _ {S A : Type 0} {P Q : S → Type 0} where
  pub Goes-crash : Goes P Q (crash {A = A})
  unfolding crash
  Goes-crash = record { at = λ s h. tt }

  pub Goes-out_of_rounds : Goes P Q (out_of_rounds {A = A})
  unfolding out_of_rounds
  Goes-out_of_rounds = record { at = λ s h. tt }

module _ {S A : Type 0} {P : S → Type 0} {Q : A → S → Type 0} where
  pub Ensures-if :
      (b : Bool) (m n : Prog S A) → Ensures P Q m → Ensures P Q n → Ensures P Q (if b then m else n)
  Ensures-if true m n km kn = km
  Ensures-if false m n km kn = kn

  pub Ensures-if_nil :
      {B : Type 0} (o : Option B) (m : Prog S A) (f : B → Prog S A)
      → Ensures P Q m
      → ((b : B) → Ensures P Q (f b))
      → Ensures P Q (if_nil o m f)
  Ensures-if_nil none m f km kf = km
  Ensures-if_nil (some b) m f km kf = kf b

pub Ensures-bind :
    {S A B : Type 0} {P : S → Type 0} (Q : A → S → Type 0) {R : B → S → Type 0} (m : Prog S A)
    (f : A → Prog S B)
    → Ensures P Q m
    → ((a : A) → Ensures (Q a) R (f a))
    → Ensures P R (m >>= f)
unfolding ◌>>=◌
Ensures-bind Q m f km kf = record {
  at = λ s h. After-bind Q _ (m s) f (km.at s h) λ a s' h'. (kf a).at s' h';
}

-- Nothing is known after the first program.
pub Ensures-then :
    {S A B : Type 0} {P : S → Type 0} {Q : B → S → Type 0} (m : Prog S A) (f : A → Prog S B)
    → ((a : A) → Ensures (λ _. Unit) Q (f a))
    → Ensures P Q (m >>= f)
Ensures-then m f k = Ensures-bind (λ _ _. Unit) m f (record { at = λ s h. anywhere (m s) }) k

-- A test, with its result in each branch.
pub Ensures-test :
    {S A : Type 0} {P : S → Type 0} {Q : A → S → Type 0} (b : Bool) (m n : Prog S A)
    → (b ≡ true → Ensures P Q m)
    → (b ≡ false → Ensures P Q n)
    → Ensures P Q (if b then m else n)
Ensures-test true m n km kn = km refl
Ensures-test false m n km kn = kn refl

pub Goes-via :
    {S A B : Type 0} {P R : S → Type 0} (Q : S → Type 0) (m : Prog S A) (f : A → Prog S B)
    → Goes P Q m
    → ((a : A) → Goes Q R (f a))
    → Goes P R (m >>= f)
Goes-via Q m f km kf = Ensures-bind (λ _. Q) m f km kf

pub ruleset goes_rules =
    (Goes-pure, Goes-gets, Goes-crash, Goes-out_of_rounds, Goes-lift, Ensures-if, Ensures-if_nil)
