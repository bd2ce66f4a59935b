-- ===== src/Signals/Series.antt =====
-- Python's lists of prices, as app/strategies/quant_algos uses them.
use artic_trader.Prelude.{ℕ, ◌+◌, ◌-◌, ◌==◌, leb, List, [], ◌∷◌, length, take, drop, if◌then◌else◌}
use artic_trader.Prelude.Exec.{Result, ok, err}
use artic_trader.Prelude.Results.{◌>>=◌}
use artic_trader.Trading.Float.{FloatOps, PyError, value_error, index_error, py_div, py_max, py_min}
use artic_trader.Backtest.Metrics.{MathOps, sum}

module _ {A : Type 0} where
  -- xs[-n:]
  unfoldable pub last_n : ℕ → List A → List A
  last_n n xs = if n == 0 then xs else drop (length xs - n) xs

  -- xs[i - k + 1 : i + 1]: a start below zero counts from the end.
  unfoldable pub window_at : ℕ → ℕ → List A → List A
  window_at k i xs =
      if leb k (i + 1)
      then drop (i + 1 - k) (take (i + 1) xs)
      else drop (length xs + (i + 1) - k) (take (i + 1) xs)

  -- xs[-1]
  unfoldable pub final : List A → Result PyError A
  final [] = err index_error
  final (x ∷ []) = ok x
  final (x ∷ y ∷ ys) = final (y ∷ ys)

  module _ ⦃o : FloatOps A⦄ where
    -- max(xs) and min(xs)
    abbrev max_from : A → List A → A
    max_from m [] = m
    max_from m (x ∷ xs) = max_from (py_max m x) xs

    abbrev min_from : A → List A → A
    min_from m [] = m
    min_from m (x ∷ xs) = min_from (py_min m x) xs

    unfoldable pub max_of : List A → Result PyError A
    max_of [] = err value_error
    max_of (x ∷ xs) = ok (max_from x xs)

    unfoldable pub min_of : List A → Result PyError A
    min_of [] = err value_error
    min_of (x ∷ xs) = ok (min_from x xs)

    -- sum(xs) / len(xs)
    unfoldable pub mean_of : List A → Result PyError A
    mean_of xs = py_div (sum xs) (o.lit (length xs))

    -- [(x - mean) ** 2 for x in xs]
    abbrev pub deviations : MathOps A → A → List A → Result PyError (List A)
    deviations m mean [] = ok []
    deviations m mean (x ∷ xs) = do
      d ← m.square (o.sub x mean)
      ds ← deviations m mean xs
      ok (d ∷ ds)

    -- math.sqrt(var) if var > 0 else 1e-10
    abbrev pub std_of : MathOps A → A → A
    std_of m var = if o.lt (o.lit 0) var then m.sqrt var else o.quot (o.lit 1) (o.lit 10000000000)

    -- The mean of a window and its deviation.
    unfoldable pub mean_and_std : MathOps A → List A → Result PyError (A × A)
    mean_and_std m window = do
      mean ← mean_of window
      ds ← deviations m mean window
      var ← py_div (sum ds) (o.lit (length window))
      ok (mean, std_of m var)

    -- max(-b, min(b, x))
    unfoldable pub clamp : ℕ → A → A
    clamp b x = py_max (o.neg (o.lit b)) (py_min (o.lit b) x)

    -- 1 / 2
    abbrev pub half : A
    half = o.quot (o.lit 1) (o.lit 2)
