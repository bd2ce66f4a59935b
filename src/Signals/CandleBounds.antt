-- ===== src/Signals/CandleBounds.antt =====
-- The ranges of the signals on candles of app/strategies/quant_algos.
use artic_trader.Prelude.{
  ℕ, ◌+◌, ◌-◌, ◌*◌, not, ltb, Option, none, some, List, [], ◌∷◌, length, map, take, if_both,
}
use artic_trader.Trading.Float.{FloatOps, py_div, py_abs, truthy}
use artic_trader.Trading.Session.{Candle}
use artic_trader.Backtest.Metrics.{MathOps, sum}
use artic_trader.Signals.Series.{last_n, final, mean_and_std, half}
use artic_trader.Signals.Trend.{
  positive, in_trend, supertrend, adx_filter, ichimoku_signal, expanded, atr_breakout,
  keltner_bollinger, atr, pairwise, true_range, directional, plus_dm, minus_dm, direction_index,
  middle, or_std,
}
use artic_trader.Signals.Volume.{obv_from, cumulated, obv_trend, vwap_deviation}
use artic_trader.Signals.Range.{any_one, clamp_one}
use artic_trader.Signals.Bounded.{
  RangeLaws, One, Small, plus_one, zero_one, sign-Within, beyond-Within, guarded,
}

module _ {A : Type 0} ⦃o : FloatOps A⦄ (laws : RangeLaws A) where
  pub supertrend-Within :
      (candles : List (Candle A)) (period : ℕ) (mult : A)
      → One laws (supertrend candles period mult)
  unfolding supertrend
  supertrend-Within candles period mult = guarded laws (ltb (length candles) (period + 1)) _ (
      any_one laws.base (atr candles period) _
        (λ a. any_one laws.base (final candles) _ (λ last. placed last (positive a))))
    where
      placed : (last : Candle A) (a : Option A) → One laws (in_trend mult last a)
      placed last none = zero_one laws
      placed last (some a) =
          any_one laws.base (py_div (o.add last.high last.low) (o.lit 2)) _
            (λ hl2. beyond-Within laws last.close_price _ _)

  pub adx-Within :
      (candles : List (Candle A)) (period : ℕ) (threshold : A)
      → One laws (adx_filter candles period threshold)
  unfolding adx_filter
  adx-Within [] period threshold = zero_one laws
  adx-Within (c ∷ cs) period threshold = guarded laws (ltb (length (c ∷ cs)) (period * 2)) _ (
      guarded laws (ltb (length (pairwise true_range (c ∷ cs))) period) _ (
        any_one laws.base
          (py_div (sum (last_n period (pairwise true_range (c ∷ cs)))) (o.lit period)) _
          (λ a. any_one laws.base (directional (pairwise plus_dm (c ∷ cs)) period a) _ (λ plus_di.
            any_one laws.base (directional (pairwise minus_dm (c ∷ cs)) period a) _ (λ minus_di.
              any_one laws.base (direction_index plus_di minus_di) _ (λ dx.
                if_both (Small laws) (o.le threshold dx) _ _ (plus_one laws) (zero_one laws)))))))

  pub ichimoku-Within :
      (candles : List (Candle A)) (t k n : ℕ) → One laws (ichimoku_signal candles t k n)
  unfolding ichimoku_signal
  ichimoku-Within [] t k n = zero_one laws
  ichimoku-Within (c ∷ cs) t k n = guarded laws (ltb (length (c ∷ cs)) n) _ (
      any_one laws.base (middle (last_n t (c ∷ cs))) _ (λ tenkan.
        any_one laws.base (middle (last_n k (c ∷ cs))) _
          (λ kijun. any_one laws.base (final (c ∷ cs)) _ (λ last. clamp_one laws.base _))))

  pub atr_breakout-Within :
      (candles : List (Candle A)) (period : ℕ) (mult : A)
      → One laws (atr_breakout candles period mult)
  unfolding atr_breakout
  atr_breakout-Within candles period mult = guarded laws (ltb (length candles) (period + 1)) _ (
      any_one laws.base (atr candles period) _
        (λ a. any_one laws.base (final candles) _ (λ last. broken last (positive a))))
    where
      broken : (last : Candle A) (a : Option A) → One laws (expanded mult last a)
      broken last none = zero_one laws
      broken last (some a) = guarded laws (not (o.lt (o.mul a mult) (o.sub last.high last.low))) _ (
          guarded laws (o.eq last.high last.low) _ (
            any_one laws.base (py_div (o.sub last.close_price last.low) (o.sub last.high last.low))
              _ (λ pos. sign-Within laws (o.lt half pos))))

  pub keltner-Within :
      (m : MathOps A) (candles : List (Candle A)) (period : ℕ) (mult : A)
      → One laws (keltner_bollinger m candles period mult)
  unfolding keltner_bollinger
  keltner-Within m candles period mult = guarded laws (ltb (length candles) (period + 1)) _ (
      any_one laws.base (mean_and_std m (map (λ c. c.close_price) (last_n period candles))) _ (λ s.
        any_one laws.base (atr candles 14) _ (λ a. any_one laws.base (final candles) _ (λ last.
          if_both (Small laws) (o.le (o.add s.0 (o.mul mult (or_std s.1 a))) last.close_price) _ _
            laws.halves.1
            (if_both (Small laws) (o.le last.close_price (o.sub s.0 (o.mul mult (or_std s.1 a)))) _
              _ laws.halves.0 (zero_one laws))))))

  pub vwap-Within : (candles : List (Candle A)) → One laws (vwap_deviation candles)
  unfolding vwap_deviation
  vwap-Within [] = zero_one laws
  vwap-Within (c ∷ cs) = guarded laws (not (truthy c.volume)) _ (
      any_one laws.base (cumulated (o.lit 0) (o.lit 0) (c ∷ cs)) _ (λ s.
        guarded laws (o.le s.1 (o.lit 0)) _ (
          any_one laws.base (py_div s.0 s.1) _ (λ vwap.
            any_one laws.base (final (c ∷ cs)) _ (λ last. guarded laws (o.eq vwap (o.lit 0)) _ (
              any_one laws.base (py_div (o.neg (o.sub last.close_price vwap)) vwap) _
                (clamp_one laws.base)))))))

  pub obv-Within :
      (candles : List (Candle A)) (lookback : ℕ) → One laws (obv_trend candles lookback)
  unfolding obv_trend
  obv-Within candles lookback = guarded laws (ltb (length candles) (lookback + 1)) _ (
      guarded laws (o.eq (obv_from (o.lit 0) (take (length candles - lookback) candles)) (o.lit 0))
        _
        (any_one laws.base
          (py_div
            (o.sub (obv_from (o.lit 0) candles)
              (obv_from (o.lit 0) (take (length candles - lookback) candles)))
            (py_abs (obv_from (o.lit 0) (take (length candles - lookback) candles))))
          _ (λ change. clamp_one laws.base _)))
