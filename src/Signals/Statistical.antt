-- ===== src/Signals/Statistical.antt =====
-- app/strategies/quant_algos/statistical_algos.py and meth_rwa.py, without the texts of their details.
use artic_trader.Prelude.{
  ℕ, zero, suc, ◌+◌, ◌-◌, ◌*◌, ◌==◌, ltb, List, [], ◌∷◌, length, if◌then◌else◌,
}
use artic_trader.Prelude.Exec.{Result, ok}
use artic_trader.Prelude.Results.{◌>>=◌}
use artic_trader.Trading.Float.{FloatOps, PyError, py_div, py_max, py_min, py_abs, truthy}
use artic_trader.Backtest.Metrics.{MathOps, sum}
use artic_trader.Signals.Series.{last_n, final, clamp, std_of}

-- sum(range(n)), and the sum of the squares
unfoldable pub sum_range : ℕ → ℕ
sum_range zero = 0
sum_range (suc n) = sum_range n + n

unfoldable pub sum_squares : ℕ → ℕ
sum_squares zero = 0
sum_squares (suc n) = sum_squares n + n * n

module _ {A : Type 0} ⦃o : FloatOps A⦄ where
  -- [f(i, y) for the items, from an index on]
  abbrev pub indexed : (ℕ → A → A) → ℕ → List A → List A
  indexed f i [] = []
  indexed f i (y ∷ ys) = f i y ∷ indexed f (i + 1) ys

  abbrev pub products : List A → List A
  products = indexed (λ i y. o.mul (o.lit i) y) 0

  -- y - (intercept + slope * x)
  abbrev pub residuals : A → A → List A → List A
  residuals intercept slope = indexed (λ i y. o.sub y (o.add intercept (o.mul slope (o.lit i)))) 0

  -- -((p - pred) / std), or zero
  abbrev pub reverting : A → A → A → Result PyError A
  reverting p pred std =
      if truthy std then (do dev ← py_div (o.sub p pred) std; ok (o.neg dev)) else ok (o.lit 0)

  abbrev pub squared : List A → List A
  squared [] = []
  squared (r ∷ rs) = o.mul r r ∷ squared rs

module _ {A : Type 0} ⦃o : FloatOps A⦄ (m : MathOps A) where
  abbrev pub from_line : List A → List A → ℕ → Result PyError A
  from_line prices y n = do
    let den = n * sum_squares n - sum_range n * sum_range n
    slope ←
        py_div (o.sub (o.mul (o.lit n) (sum (products y))) (o.mul (o.lit (sum_range n)) (sum y)))
          (o.lit den)
    intercept ← py_div (o.sub (sum y) (o.mul slope (o.lit (sum_range n)))) (o.lit n)
    let rs = residuals intercept slope y
    var ← py_div (sum (squared rs)) (o.lit (length rs))
    p ← final prices
    sig ← reverting p (o.add intercept (o.mul slope (o.lit (n - 1)))) (std_of m var)
    ok (clamp 2 sig)

  unfoldable pub linear_regression_channel : List A → ℕ → Result PyError A
  linear_regression_channel prices lookback =
      if ltb (length prices) lookback
      then ok (o.lit 0)
      else if lookback * sum_squares lookback == sum_range lookback * sum_range lookback
      then ok (o.lit 0)
      else from_line prices (last_n lookback prices) lookback

module _ {A : Type 0} ⦃o : FloatOps A⦄ where
  -- The estimate and its variance after these prices.
  unfoldable pub filtered : A → A → A → A → List A → Result PyError (A × A)
  filtered q r x p [] = ok (x, p)
  filtered q r x p (z ∷ zs) = do
    k ← py_div (o.add p q) (o.add (o.add p q) r)
    filtered q r (o.add x (o.mul k (o.sub z x))) (o.mul (o.sub (o.lit 1) k) (o.add p q)) zs

  abbrev pub from_fair : A → A → A → Result PyError A
  from_fair p fair scale =
      if truthy scale then py_div (o.neg (o.sub p fair)) scale else ok (o.lit 0)

  -- `root x` is `x ** 0.5`.
  unfoldable pub kalman_fair_value : (A → A) → List A → A → A → Result PyError A
  kalman_fair_value root [] process_var measure_var = ok (o.lit 0)
  kalman_fair_value root (x ∷ xs) process_var measure_var =
      if ltb (length (x ∷ xs)) 5 then ok (o.lit 0) else (do
        (fair, variance) ← filtered process_var measure_var x (o.lit 1) xs
        p ← final (x ∷ xs)
        sig ← from_fair p fair (root (py_max variance (o.quot (o.lit 1) (o.lit 1000000))))
        ok (clamp 2 sig))

  -- min(1, |ratio - 1| / max(threshold, 1e-9))
  abbrev pub magnitude : A → A → Result PyError A
  magnitude ratio threshold = do
    q ←
        py_div (py_abs (o.sub ratio (o.lit 1)))
          (py_max threshold (o.quot (o.lit 1) (o.lit 1000000000)))
    ok (py_min (o.lit 1) q)

  abbrev pub meth_ratio : A → A → A → A → Result PyError A
  meth_ratio ratio discount premium size_mult =
      if o.le ratio (o.lit 0)
      then ok (o.lit 0)
      else if o.lt ratio (o.sub (o.lit 1) discount)
      then (do x ← magnitude ratio discount; ok (o.mul x size_mult))
      else if o.lt (o.add (o.lit 1) premium) ratio
      then (do x ← magnitude ratio premium; ok (o.mul (o.neg x) size_mult))
      else ok (o.lit 0)

  unfoldable pub meth_rwa : List A → A → A → A → Result PyError A
  meth_rwa prices discount premium size_mult =
      if ltb (length prices) 2
      then ok (o.lit 0)
      else (do ratio ← final prices; meth_ratio ratio discount premium size_mult)
