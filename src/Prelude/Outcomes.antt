-- ===== src/Prelude/Outcomes.antt =====
-- The outcome of Go code that may panic.
use mathlib.Core.Path.{◌≡◌, refl}
use mathlib.Core.Logic.{◌⊎◌, inl, inr}
use mathlib.Core.Bool.{Bool, true, false}
use go_nfsd.Prelude.Tests.{if◌then◌else◌}

pub data Outcome {ℓ} (A : Type ℓ) : Type ℓ where
  ok : A → Outcome A
  panic : Outcome A

infixl 5 ◌>>=◌ ◌>>◌
abbrev pub ◌>>=◌ {ℓ κ} : {A : Type ℓ} {B : Type κ} → Outcome A → (A → Outcome B) → Outcome B
ok a >>= f = f a
panic >>= f = panic

abbrev pub ◌>>◌ {ℓ κ} : {A : Type ℓ} {B : Type κ} → Outcome A → Outcome B → Outcome B
m >> k = m >>= λ _. k

pub Outcome-cases {ℓ} : {A : Type ℓ} (r : Outcome A) → (r ≡ panic) ⊎ ((a : A) × (r ≡ ok a))
Outcome-cases (ok a) = inr (a, refl)
Outcome-cases panic = inl refl

-- Two binds agree when their continuations agree on what the first part returns.
pub bind-same {ℓ κ} :
    {A : Type ℓ} {B : Type κ} (m : Outcome A) {f g : A → Outcome B}
    → ((a : A) → m ≡ ok a → f a ≡ g a)
    → (m >>= f) ≡ (m >>= g)
bind-same (ok a) h = h a refl
bind-same panic h = refl

-- A property of what is returned.
abbrev pub OnOk {ℓ κ} : {A : Type ℓ} → Outcome A → (A → Type κ) → Type κ
OnOk (ok a) P = P a
OnOk panic P = Unit

-- What code returns, if it returns, has a property; one rule for each way to build code.
pub record Gives {ℓ} {A : Type ℓ} (P : A → Type 0) (m : Outcome A) : Type 0 where
  pub at : OnOk m P

pub Gives-ok {ℓ} : {A : Type ℓ} {P : A → Type 0} (a : A) → P a → Gives P (ok a)
Gives-ok a p = record { at = p }

pub Gives-panic {ℓ} : {A : Type ℓ} {P : A → Type 0} → Gives P panic
Gives-panic = record { at = tt }

-- Nothing is known of the first part.
pub Gives-bind {ℓ κ} :
    {A : Type ℓ} {B : Type κ} {Q : B → Type 0} (m : Outcome A) (f : A → Outcome B)
    → ((a : A) → Gives Q (f a))
    → Gives Q (m >>= f)
Gives-bind (ok a) f k = k a
Gives-bind panic f k = Gives-panic

pub Gives-then {ℓ κ} :
    {A : Type ℓ} {B : Type κ} {P : A → Type 0} {Q : B → Type 0} (m : Outcome A) (f : A → Outcome B)
    → Gives P m
    → ((a : A) → P a → Gives Q (f a))
    → Gives Q (m >>= f)
Gives-then (ok a) f g k = k a g.at
Gives-then panic f g k = Gives-panic

pub Gives-if {ℓ} :
    {A : Type ℓ} {P : A → Type 0} (b : Bool) (m n : Outcome A)
    → Gives P m
    → Gives P n
    → Gives P (if b then m else n)
Gives-if true m n x y = x
Gives-if false m n x y = y

pub ruleset gives_rules = (Gives-ok, Gives-panic, Gives-bind, Gives-if)

pub ruleset then_rules = (Gives-then, gives_rules)
