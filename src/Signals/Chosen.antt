-- ===== src/Signals/Chosen.antt =====
-- What a chain of `if name == …: return …` returns: app/strategies/signals.py.
use artic_trader.Prelude.{String, str_eq, false, List, [], ◌∷◌, ◌≡◌, refl, Bool-cases, inl, inr}
use artic_trader.Signals.Dispatch.{choose}

abbrev pub Cases {ℓ} : {X : Type 0} → (X → Type ℓ) → List (String × X) → Type ℓ
Cases P [] = Unit
Cases P ((case, x) ∷ cases) = P x × Cases P cases

-- The name is none of the cases.
abbrev pub Misses : {X : Type 0} → String → List (String × X) → Type 0
Misses name [] = Unit
Misses name ((case, x) ∷ cases) = (str_eq name case ≡ false) × Misses name cases

module _ {X : Type 0} (name : String) where
  pub choose-Cases :
      (P : X → Type 0) (cases : List (String × X)) (rest : X)
      → Cases P cases
      → P rest
      → P (choose name cases rest)
  choose-Cases P [] rest h r = r
  choose-Cases P ((case, x) ∷ cases) rest (h, hs) r = elim (Bool-cases (str_eq name case)) [
    | inl e ↦ rw e h
    | inr e ↦ rw e (choose-Cases P cases rest hs r)
  ]

  pub choose-Misses :
      (cases : List (String × X)) (rest : X) → Misses name cases → choose name cases rest ≡ rest
  choose-Misses [] rest m = refl
  choose-Misses ((case, x) ∷ cases) rest (m, ms) = rw m (choose-Misses cases rest ms)
