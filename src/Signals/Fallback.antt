-- ===== src/Signals/Fallback.antt =====
-- The signals of app/strategies/signals.py itself, without the texts of their details.
use artic_trader.Prelude.{ℕ, ◌/◌, ltb, leb, List, [], ◌∷◌, map, length, if◌then◌else◌}
use artic_trader.Prelude.Exec.{Result, ok}
use artic_trader.Prelude.Results.{◌>>=◌}
use artic_trader.Trading.Float.{FloatOps, PyError, py_div, py_abs}
use artic_trader.Trading.Session.{Candle, StrategyPlan}
use artic_trader.Backtest.Metrics.{MathOps, sum}
use artic_trader.Signals.Series.{last_n, final, mean_and_std, clamp}
use artic_trader.Signals.Momentum.{elem, elem_back, relative, simple_momentum}
use artic_trader.Signals.Volume.{max_ℕ}

module _ {A : Type 0} ⦃o : FloatOps A⦄ where
  -- 0.4 with its sign, if it is smaller
  abbrev pub at_least : A → A
  at_least sig =
      if o.lt (py_abs sig) (o.quot (o.lit 4) (o.lit 10))
      then (if o.le (o.lit 0) sig
          then o.quot (o.lit 4) (o.lit 10)
          else o.neg (o.quot (o.lit 4) (o.lit 10)))
      else sig

  abbrev pub demo_level : A → A → A → A
  demo_level bps newest before =
      if o.eq bps (o.lit 0)
      then (if o.le before newest
          then o.quot (o.lit 6) (o.lit 10)
          else o.neg (o.quot (o.lit 6) (o.lit 10)))
      else at_least (clamp 1 bps)

  abbrev pub demo_change : A → A → A → Result PyError A
  demo_change oldest newest before = if o.eq oldest (o.lit 0) then ok (o.lit 0) else (do
    q ← py_div (o.sub newest oldest) oldest
    ok (demo_level (o.mul q (o.lit 10000)) newest before))

  unfoldable pub signal_demo_mode : List A → Result PyError A
  signal_demo_mode prices = if ltb (length prices) 4 then ok (o.lit 0) else (do
    oldest ← elem (last_n 4 prices) 0
    newest ← final (last_n 4 prices)
    before ← elem_back (last_n 4 prices) 2
    demo_change oldest newest before)

  -- The last closes of the candles, if there are enough, or else the last prices, or none.
  abbrev pub closes_or :
      List (Candle A) → List A → ℕ → (List A → Result PyError A) → Result PyError A
  closes_or [] prices lookback f =
      if ltb (length prices) lookback then ok (o.lit 0) else f (last_n lookback prices)
  closes_or (c ∷ cs) prices lookback f =
      if leb lookback (length (c ∷ cs))
      then f (map (λ x. x.close_price) (last_n lookback (c ∷ cs)))
      else if ltb (length prices) lookback
      then ok (o.lit 0)
      else f (last_n lookback prices)

  unfoldable pub signal_trend_following :
      StrategyPlan A → List (Candle A) → List A → Result PyError A
  signal_trend_following plan candles prices =
      let lookback = max_ℕ 2 plan.lookback in
      let fast_len = max_ℕ 1 (lookback / 2) in
      closes_or candles prices lookback (λ closes. do
        fast_ma ← py_div (sum (last_n fast_len closes)) (o.lit fast_len)
        slow_ma ← py_div (sum closes) (o.lit (length closes))
        relative fast_ma slow_ma slow_ma)

  unfoldable pub signal_mean_reversion :
      MathOps A → StrategyPlan A → List (Candle A) → List A → Result PyError A
  signal_mean_reversion m plan candles prices =
      closes_or candles prices (max_ℕ 3 plan.lookback) (λ closes. do
        (mean, std) ← mean_and_std m closes
        p ← final closes
        z ← py_div (o.sub p mean) std
        ok (o.neg z))

  unfoldable pub signal_funding_oi_filter : StrategyPlan A → List A → Result PyError A
  signal_funding_oi_filter plan prices = simple_momentum prices (max_ℕ 1 plan.lookback)
