-- ===== src/Programs.antt =====
-- Programs over a state that may panic, wait for a lock that is never given back, or not finish within
-- their fuel.
pub mod Keeps
use go_nfsd.Prelude.{Outcome, ok, panic, Bool, Option, none, some, if◌then◌else◌}

pub data Result {ℓ} (A : Type ℓ) : Type ℓ where
  returns : A → Result A
  panics : Result A
  waits : Result A
  unfinished : Result A

abbrev pub Prog : Type 0 → Type 0 → Type 0
Prog S A = S → Result (A × S)

abbrev pub and_then : {S A B : Type 0} → Result (A × S) → (A → Prog S B) → Result (B × S)
and_then (returns (a, s)) f = f a s
and_then panics f = panics
and_then waits f = waits
and_then unfinished f = unfinished

module _ {S A : Type 0} where
  unfoldable pub pure : A → Prog S A
  pure a s = returns (a, s)

  unfoldable pub gets : (S → A) → Prog S A
  gets f s = returns (f s, s)

  -- `panic(...)`
  unfoldable pub crash : Prog S A
  crash s = panics

  -- A loop that has used up its rounds.
  unfoldable pub out_of_rounds : Prog S A
  out_of_rounds s = unfinished

  unfoldable pub lift : Outcome A → Prog S A
  lift m s = elim m [ ok a ↦ returns (a, s) | panic ↦ panics ]

module _ {S A B : Type 0} where
  infixl 5 ◌>>=◌ ◌>>◌
  -- Opening this opens the other actions too.
  unfoldable pub ◌>>=◌ : Prog S A → (A → Prog S B) → Prog S B
  unfolding pure gets crash out_of_rounds lift
  ◌>>=◌ m f s = and_then (m s) f

  abbrev pub ◌>>◌ : Prog S A → Prog S B → Prog S B
  m >> k = m >>= λ _. k

  -- nil, or a value.
  abbrev pub if_nil : Option A → Prog S B → (A → Prog S B) → Prog S B
  if_nil none m f = m
  if_nil (some a) m f = f a

unfoldable pub modify : {S : Type 0} → (S → S) → Prog S (Unit {0})
modify f s = returns (tt, f s)

abbrev pub when : {S : Type 0} → Bool → Prog S (Unit {0}) → Prog S (Unit {0})
when b m = if b then m else pure tt

-- The rest of a state is put back around a part of it.
abbrev pub put_back : {S T A : Type 0} → (S → T) → Result (A × S) → Result (A × T)
put_back f (returns (a, s)) = returns (a, f s)
put_back f panics = panics
put_back f waits = waits
put_back f unfinished = unfinished

-- A program on a part of the state.
unfoldable pub within : {S T A : Type 0} → (T → S) → (T → S → T) → Prog S A → Prog T A
within get put m s = put_back (put s) (m (get s))
