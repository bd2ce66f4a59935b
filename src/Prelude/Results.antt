-- ===== src/Prelude/Results.antt =====
-- Functions that may raise and keep no state: Python's exceptions as values.
use mathlib.Core.Path.{◌≡◌, refl}
use artic_trader.Prelude.Exec.{Result, ok, err, Exec, Keeps}

infixl 10 ◌>>=◌ ◌>>◌
abbrev pub ◌>>=◌ {ℓ} : {E A B : Type ℓ} → Result E A → (A → Result E B) → Result E B
ok a >>= f = f a
err e >>= f = err e

abbrev pub ◌>>◌ {ℓ} : {E A B : Type ℓ} → Result E A → Result E B → Result E B
m >> k = m >>= λ _. k

-- A result in a method that has a state.
abbrev pub lift {ℓ} : {S E A : Type ℓ} → Result E A → Exec S E A
lift r s = (r, s)

pub Keeps-lift {ℓ} : {S E A : Type ℓ} {P : S → Type ℓ} (r : Result E A) → Keeps P (lift r)
Keeps-lift r = record { at = λ s h. h }

-- What holds of the value that a call returns.
abbrev pub Returns : {E A : Type 0} → (A → Type 0) → Result E A → Type 0
Returns P (ok a) = P a
Returns P (err e) = Unit {0}

pub Returns-self : {E A : Type 0} (m : Result E A) → Returns (λ a. m ≡ ok a) m
Returns-self (ok a) = refl
Returns-self (err e) = tt

module _ {E A B : Type 0} where
  pub Returns-bind :
      (Q : A → Type 0) (P : B → Type 0) (m : Result E A) (f : A → Result E B)
      → Returns Q m
      → ((a : A) → Q a → Returns P (f a))
      → Returns P (m >>= f)
  Returns-bind Q P (ok a) f q h = h a q
  Returns-bind Q P (err e) f q h = tt

  -- Whatever the first call returns.
  pub Returns-any :
      (P : B → Type 0) (m : Result E A) (f : A → Result E B)
      → ((a : A) → Returns P (f a))
      → Returns P (m >>= f)
  Returns-any P (ok a) f h = h a
  Returns-any P (err e) f h = tt
