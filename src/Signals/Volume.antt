-- ===== src/Signals/Volume.antt =====
-- app/strategies/quant_algos/volume_algos.py and smart_money.py, without the texts of their details.
use artic_trader.Prelude.{
  ℕ, Bool, ◌+◌, ◌-◌, ◌&&◌, not, ltb, Option, none, some, List, [], ◌∷◌, map, length, take, drop,
  if◌then◌else◌,
}
use artic_trader.Prelude.Exec.{Result, ok}
use artic_trader.Prelude.Results.{◌>>=◌}
use artic_trader.Trading.Float.{FloatOps, PyError, py_div, py_min, py_abs, truthy}
use artic_trader.Trading.Session.{Candle}
use artic_trader.Backtest.Metrics.{sum}
use artic_trader.Signals.Series.{final, clamp, half}
use artic_trader.Signals.Momentum.{elem_back}
use artic_trader.Signals.Trend.{atr, or_std}

-- max on whole numbers
abbrev pub max_ℕ : ℕ → ℕ → ℕ
max_ℕ a b = if ltb a b then b else a

module _ {A : Type 0} ⦃o : FloatOps A⦄ where
  -- The sums of price by volume and of volume, from these on.
  unfoldable pub cumulated : A → A → List (Candle A) → Result PyError (A × A)
  cumulated cum_pv cum_vol [] = ok (cum_pv, cum_vol)
  cumulated cum_pv cum_vol (c ∷ cs) = do
    typical ← py_div (o.add (o.add c.high c.low) c.close_price) (o.lit 3)
    cumulated (o.add cum_pv (o.mul typical c.volume)) (o.add cum_vol c.volume) cs

  abbrev pub from_vwap : A → A → Result PyError A
  from_vwap p vwap =
      if o.eq vwap (o.lit 0)
      then ok (o.lit 0)
      else (do sig ← py_div (o.neg (o.sub p vwap)) vwap; ok (clamp 1 sig))

  abbrev pub around_vwap : List (Candle A) → A → A → Result PyError A
  around_vwap candles cum_pv cum_vol =
      if o.le cum_vol (o.lit 0)
      then ok (o.lit 0)
      else (do vwap ← py_div cum_pv cum_vol; last ← final candles; from_vwap last.close_price vwap)

  unfoldable pub vwap_deviation : List (Candle A) → Result PyError A
  vwap_deviation [] = ok (o.lit 0)
  vwap_deviation (c ∷ cs) = if not (truthy c.volume) then ok (o.lit 0) else (do
    (cum_pv, cum_vol) ← cumulated (o.lit 0) (o.lit 0) (c ∷ cs)
    around_vwap (c ∷ cs) cum_pv cum_vol)

  -- A candle's volume counts up if it closes no lower than the one before.
  abbrev pub obv_step : A → Candle A → Candle A → A
  obv_step obv p c =
      if o.le p.close_price c.close_price then o.add obv c.volume else o.sub obv c.volume

  unfoldable pub obv_from : A → List (Candle A) → A
  obv_from obv [] = obv
  obv_from obv (p ∷ []) = obv
  obv_from obv (p ∷ c ∷ cs) = obv_from (obv_step obv p c) (c ∷ cs)

  abbrev pub obv_change : A → A → Result PyError A
  obv_change obv obv_prev = if o.eq obv_prev (o.lit 0) then ok (o.lit 0) else (do
    change ← py_div (o.sub obv obv_prev) (py_abs obv_prev)
    ok (clamp 1 (o.mul change (o.lit 10))))

  -- The earlier balance is that of all candles but the last `lookback`.
  unfoldable pub obv_trend : List (Candle A) → ℕ → Result PyError A
  obv_trend candles lookback =
      if ltb (length candles) (lookback + 1)
      then ok (o.lit 0)
      else obv_change (obv_from (o.lit 0) candles)
          (obv_from (o.lit 0) (take (length candles - lookback) candles))

  -- 0.3 against funding beyond 0.0005 on either side
  unfoldable pub funding_bias_stub : Option A → Result PyError A
  funding_bias_stub none = ok (o.lit 0)
  funding_bias_stub (some rate) =
      if o.lt (o.quot (o.lit 1) (o.lit 2000)) rate
      then ok (o.neg (o.quot (o.lit 3) (o.lit 10)))
      else if o.lt rate (o.neg (o.quot (o.lit 1) (o.lit 2000)))
      then ok (o.quot (o.lit 3) (o.lit 10))
      else ok (o.lit 0)

  -- c.get("volume", 0) or 0
  abbrev pub volume_or_zero : Candle A → A
  volume_or_zero c = if truthy c.volume then c.volume else o.lit 0

  -- The balance at each candle: `obv_step`, with a missing volume as zero.
  unfoldable pub obv_series : A → List (Candle A) → List A
  obv_series obv [] = obv ∷ []
  obv_series obv (p ∷ []) = obv ∷ []
  obv_series obv (p ∷ c ∷ cs) =
      obv
      ∷ obv_series
          (if o.le p.close_price c.close_price
            then o.add obv (volume_or_zero c)
            else o.sub obv (volume_or_zero c))
          (c ∷ cs)

  -- The setup: the ratio of the volumes and the place of the close are high, and the balance has risen.
  abbrev pub confirmed : A → A → A → A → A → A → Bool
  confirmed vol_ratio vol_mult close_pos close_top_frac obv_now obv_then =
      o.le vol_mult vol_ratio
      && o.le (o.sub (o.lit 1) close_top_frac) close_pos
      && o.lt obv_then obv_now

  -- min(1.0, 0.5 + (vol_ratio - vol_mult) * 0.25), unless there is no range for the stops
  abbrev pub strength : A → A → A → A
  strength vol_ratio vol_mult a =
      if o.le a (o.lit 0)
      then o.lit 0
      else py_min (o.lit 1)
          (o.add half (o.mul (o.sub vol_ratio vol_mult) (o.quot (o.lit 1) (o.lit 4))))

  abbrev pub on_volume : List (Candle A) → A → ℕ → A → Candle A → A → Result PyError A
  on_volume candles vol_mult obv_window close_top_frac last avg_vol =
      if o.le avg_vol (o.lit 0) then ok (o.lit 0) else (do
        vol_ratio ← py_div (volume_or_zero last) avg_vol
        if o.eq last.high last.low then ok (o.lit 0) else (do
          close_pos ← py_div (o.sub last.close_price last.low) (o.sub last.high last.low)
          obv_now ← final (obv_series (o.lit 0) candles)
          obv_then ← elem_back (obv_series (o.lit 0) candles) (obv_window + 1)
          if not (confirmed vol_ratio vol_mult close_pos close_top_frac obv_now obv_then)
              then ok (o.lit 0)
              else (do a ← atr candles 14; ok (strength vol_ratio vol_mult (or_std (o.lit 0) a)))))

  -- The average is over the candles before the last.
  unfoldable pub smart_money : List (Candle A) → A → ℕ → ℕ → A → Result PyError A
  smart_money candles vol_mult avg_window obv_window close_top_frac =
      if ltb (length candles) (max_ℕ (max_ℕ (avg_window + 1) (obv_window + 1)) 15)
      then ok (o.lit 0)
      else (do
        last ← final candles
        if o.le (volume_or_zero last) (o.lit 0) then ok (o.lit 0) else (do
          let before = drop (length candles - (avg_window + 1)) (take (length candles - 1) candles)
          avg_vol ← py_div (sum (map volume_or_zero before)) (o.lit avg_window)
          on_volume candles vol_mult obv_window close_top_frac last avg_vol))
