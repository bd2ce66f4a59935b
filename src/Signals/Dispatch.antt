-- ===== src/Signals/Dispatch.antt =====
-- compute_strategy_signal of app/strategies/signals.py.
use artic_trader.Prelude.{
  ℕ, Bool, false, ◌/◌, ltb, leb, String, str_eq, List, [], ◌∷◌, map, length, if◌then◌else◌,
}
use artic_trader.Prelude.Exec.{Result}
use artic_trader.Trading.Float.{FloatOps, PyError, truthy}
use artic_trader.Trading.Session.{Candle, StrategyPlan}
use artic_trader.Backtest.Metrics.{MathOps}
use artic_trader.Signals.Reversion.{
  z_score, bollinger_reversion, rsi_signal, range_sr, stochastic_signal,
}
use artic_trader.Signals.Momentum.{
  simple_momentum, dual_momentum, breakout, donchian_channel, ma_crossover, ema_crossover,
  macd_signal,
}
use artic_trader.Signals.Trend.{
  adx_filter, supertrend, ichimoku_signal, atr_breakout, bollinger_squeeze, keltner_bollinger,
}
use artic_trader.Signals.Volume.{max_ℕ, vwap_deviation, obv_trend, smart_money}
use artic_trader.Signals.Statistical.{linear_regression_channel, kalman_fair_value, meth_rwa}
use artic_trader.Signals.Fallback.{
  signal_trend_following, signal_mean_reversion, signal_funding_oi_filter, signal_demo_mode,
}

-- A chain of `if name == …: return …`, and what follows it.
abbrev pub choose : {X : Type 0} → String → List (String × X) → X → X
choose name [] rest = rest
choose name ((case, x) ∷ cases) rest = if str_eq name case then x else choose name cases rest

abbrev pub min_ℕ : ℕ → ℕ → ℕ
min_ℕ a b = if ltb b a then b else a

-- What the signals use of Python: `math.sqrt`, `x ** 2`, `x ** 0.5` and `text.lower().strip()`.
pub record Library (A : Type 0) : Type 0 where
  pub math : MathOps A
  pub root : A → A
  pub lower_strip : String → String

module _ {A : Type 0} ⦃o : FloatOps A⦄ where
  -- The volume of a candle, or zero.
  abbrev pub candle_dict : Candle A → Candle A
  candle_dict c = record c { volume = if truthy c.volume then c.volume else o.lit 0 }

  -- The signals that read prices only.
  abbrev pub price_signals : Library A → List A → ℕ → List (String × Result PyError A)
  price_signals l prices lookback =
      ("momentum", simple_momentum prices lookback)
      ∷ ("dual_momentum", dual_momentum prices (lookback / 2) lookback)
      ∷ ("breakout", breakout prices lookback)
      ∷ ("donchian_channel", donchian_channel prices lookback)
      ∷ ("ma_crossover", ma_crossover prices (max_ℕ 2 (lookback / 2)) lookback)
      ∷ ("ema_crossover", ema_crossover prices (max_ℕ 2 (lookback / 2)) lookback)
      ∷ ("macd_signal", macd_signal prices 12 26 9)
      ∷ ("z_score", z_score l.math prices lookback)
      ∷ ("bollinger_reversion", bollinger_reversion l.math prices lookback (o.lit 2))
      ∷ ("rsi_signal", rsi_signal prices (min_ℕ 14 lookback) (o.lit 70) (o.lit 30))
      ∷ ("range_sr", range_sr prices lookback)
      ∷ (
        "bollinger_squeeze",
        bollinger_squeeze l.math prices lookback (o.quot (o.lit 1) (o.lit 10)),
      )
      ∷ ("linear_regression_channel", linear_regression_channel l.math prices lookback)
      ∷ (
        "kalman_fair_value",
        kalman_fair_value l.root prices (o.quot (o.lit 1) (o.lit 100))
            (o.quot (o.lit 1) (o.lit 10)),
      )
      ∷ (
        "meth_rwa",
        meth_rwa prices (o.quot (o.lit 1) (o.lit 500)) (o.quot (o.lit 1) (o.lit 200))
            (o.quot (o.lit 1) (o.lit 2)),
      )
      ∷ []

  -- The signals that need candles.
  abbrev pub candle_signals :
      Library A → List A → List (Candle A) → ℕ → List (String × Result PyError A)
  candle_signals l prices cdicts lookback =
      ("trend_following", ma_crossover prices (max_ℕ 2 (lookback / 2)) lookback)
      ∷ ("mean_reversion", z_score l.math prices lookback)
      ∷ ("adx_filter", adx_filter cdicts 14 (o.lit 25))
      ∷ ("supertrend", supertrend cdicts 14 (o.lit 3))
      ∷ ("ichimoku_signal", ichimoku_signal cdicts 9 26 52)
      ∷ ("stochastic_signal", stochastic_signal cdicts (min_ℕ 14 lookback) 3)
      ∷ ("atr_breakout", atr_breakout cdicts 14 (o.quot (o.lit 3) (o.lit 2)))
      ∷ ("keltner_bollinger", keltner_bollinger l.math cdicts lookback (o.lit 2))
      ∷ ("vwap_deviation", vwap_deviation cdicts)
      ∷ ("obv_trend", obv_trend cdicts lookback)
      ∷ ("smart_money", smart_money cdicts (o.lit 2) 7 5 (o.quot (o.lit 1) (o.lit 4)))
      ∷ []

  -- The fallbacks, on the candles as they came.
  abbrev pub fallbacks :
      Library A → StrategyPlan A → List A → List (Candle A) → List (String × Result PyError A)
  fallbacks l plan prices candles =
      ("trend_following", signal_trend_following plan candles prices)
      ∷ ("mean_reversion", signal_mean_reversion l.math plan candles prices)
      ∷ ("funding_oi_filter", signal_funding_oi_filter plan prices)
      ∷ ("demo_mode", signal_demo_mode prices)
      ∷ []

  -- cdicts and len(cdicts) >= lookback: `cdicts` is missing if there are no candles.
  abbrev pub enough : List (Candle A) → ℕ → Bool
  enough [] lookback = false
  enough (c ∷ cs) lookback = leb lookback (length (c ∷ cs))

  abbrev pub named : Library A → String → String
  named l strategy = l.lower_strip (if str_eq strategy "" then "momentum" else strategy)

  unfoldable pub compute_strategy_signal :
      Library A → String → StrategyPlan A → List A → List (Candle A) → Result PyError A
  compute_strategy_signal l strategy plan prices candles =
      let name = named l strategy in
      let lookback = max_ℕ 2 plan.lookback in
      let last_resort =
        choose name (fallbacks l plan prices candles) (simple_momentum prices lookback) in
      choose name (price_signals l prices lookback) (
        if enough candles lookback
        then choose name (candle_signals l prices (map candle_dict candles) lookback) last_resort
        else last_resort)
