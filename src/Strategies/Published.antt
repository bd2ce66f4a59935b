-- ===== src/Strategies/Published.antt =====
-- What user-server/user_server/strategies/publish_router.py answers.
use artic_trader.Prelude.{
  ℕ, zero, suc, ◌+◌, ◌-◌, ◌*◌, ◌/◌, ◌≤◌, ◌<◌, false, not, List, [], ◌∷◌, ◌++◌, ◌≡◌, refl, ap,
  length, take, leb, arith, if_both, Bool-cases, inl, inr,
}
use native.Mathlib.Nat.{mul-suc, le_of_mul-le-mul_left, div-mul-le_self}
use artic_trader.Trading.Float.{FloatOps}
use artic_trader.Backtest.Metrics.{last}
use artic_trader.Strategies.Publish.{sample_points, stride, step_of, sample_equity}

pred : (s : ℕ) → suc s - 1 ≡ s
pred s = omega arith

module _ {A : Type 0} where
  -- The values taken, each with those skipped after it, make up the list.
  length-stride :
      (s n : ℕ) (xs : List A) → n < suc s → length xs ≤ n + suc s * length (stride (suc s) n xs)
  unfolding stride
  length-stride s n [] h = omega arith
  length-stride s zero (x ∷ xs) h = rw (pred s) (
      let rest = stride (suc s) s xs in
      omega (arith, length-stride s s xs (omega arith), mul-suc (suc s) (length rest)))
  length-stride s (suc n) (x ∷ xs) h = omega (arith, length-stride s n xs (omega (arith, h)))

  take-append : (n : ℕ) (xs ys : List A) → n ≤ length xs → take n (xs ++ ys) ≡ take n xs
  take-append zero xs ys h = refl
  take-append (suc n) [] ys h = elim (none_left h) [ ]
    where
      none_left : suc n ≤ 0 → ⊥
      none_left h = omega (arith, h)
  take-append (suc n) (x ∷ xs) ys h = ap (λ t. x ∷ t) (take-append n xs ys (omega (arith, h)))

  -- A step that is not more than one in `a` takes `a` values at least.
  enough : (s a : ℕ) (xs : List A) → suc s * a ≤ length xs → a ≤ length (stride (suc s) 0 xs)
  enough s a xs h =
      le_of_mul-le-mul_left {k = suc s} (omega (arith, h, length-stride s 0 xs (omega arith)))
        (omega arith)

  step_enough :
      (xs : List A) (n : ℕ)
      → n ≡ length xs
      → sample_points < n
      → sample_points ≤ length (stride (step_of n) 0 xs)
  step_enough xs n e h = elim (Bool-cases (leb (n / sample_points) 1)) [
    | inl b ↦ rw b (enough 0 sample_points xs (omega (arith, e, h)))
    | inr b ↦ rw b (above (n / sample_points) refl (ground (arith, b)))
  ]
    where
      above : (k : ℕ) → k ≡ n / sample_points → 1 < k → sample_points ≤ length (stride k 0 xs)
      above zero q c = omega (arith, c)
      above (suc s) q c =
          enough s sample_points xs (omega (arith, q, e, div-mul-le_self n sample_points))

module _ {A : Type 0} ⦃o : FloatOps A⦄ where
  -- The sample of a long curve is the first hundred of its strided values: the last value of the curve,
  -- which the code appends for the sample to end with, is cut off again, whatever the length.
  pub sample_equity-take :
      (curve : List A)
      → sample_points < length curve
      → sample_equity curve ≡ take sample_points (stride (step_of (length curve)) 0 curve)
  unfolding sample_equity
  sample_equity-take [] h = ground (arith, h)
  sample_equity-take (x ∷ xs) h = rw long (
      if_both (λ ys. take sample_points ys ≡ take sample_points sampled)
        (not (o.eq (last x sampled) (last x (x ∷ xs)))) (sampled ++ last x (x ∷ xs) ∷ []) sampled
        (take-append sample_points sampled (last x (x ∷ xs) ∷ [])
          (step_enough (x ∷ xs) (length (x ∷ xs)) refl h))
        refl)
    where
      sampled : List A
      sampled = stride (step_of (length (x ∷ xs))) 0 (x ∷ xs)

      long : leb (length (x ∷ xs)) sample_points ≡ false
      long = ground (arith, h)
