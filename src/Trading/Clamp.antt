-- ===== src/Trading/Clamp.antt =====
-- Bounds by `max` and `min`, with what they use of the order of numbers.
use artic_trader.Prelude.{true, ◌≡◌, Bool-cases, inl, inr}
use artic_trader.Trading.Float.{FloatOps, py_max, py_min}

-- `≤` holds where `<` does, and of a number and itself if it is equal to itself, as all floats are but
-- NaN.
pub record OrderLaws (A : Type 0) ⦃o : FloatOps A⦄ : Type 0 where
  pub eq→le : (x : A) → o.eq x x ≡ true → o.le x x ≡ true
  pub lt→le : (x y : A) → o.lt x y ≡ true → o.le x y ≡ true

module _ {A : Type 0} ⦃o : FloatOps A⦄ where
  abbrev pub Between : A → A → A → Type 0
  Between lo hi x = (o.le lo x ≡ true) × (o.le x hi ≡ true)

module _ {A : Type 0} ⦃o : FloatOps A⦄ (laws : OrderLaws A) where
  py_min-le : (hi n : A) → o.le hi hi ≡ true → o.le (py_min hi n) hi ≡ true
  py_min-le hi n t = elim (Bool-cases (o.lt n hi)) [
    | inl e ↦ rw e (laws.lt→le n hi e)
    | inr e ↦ rw e t
  ]

  py_max-Between :
      (lo hi n : A)
      → o.le lo lo ≡ true
      → o.le lo hi ≡ true
      → o.le n hi ≡ true
      → Between lo hi (py_max lo n)
  py_max-Between lo hi n b l h = elim (Bool-cases (o.lt lo n)) [
    | inl e ↦ rw e (laws.lt→le lo n e, h)
    | inr e ↦ rw e (b, l)
  ]

  -- max(lo, min(hi, n)) is in its range for any `n`, NaN too, if the bounds are equal to themselves.
  pub clamp-Between :
      (lo hi n : A)
      → o.eq lo lo ≡ true
      → o.eq hi hi ≡ true
      → o.le lo hi ≡ true
      → Between lo hi (py_max lo (py_min hi n))
  clamp-Between lo hi n b t l =
      py_max-Between lo hi (py_min hi n) (laws.eq→le lo b) l (py_min-le hi n (laws.eq→le hi t))
