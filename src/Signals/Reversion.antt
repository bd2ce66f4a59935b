-- ===== src/Signals/Reversion.antt =====
-- app/strategies/quant_algos/mean_reversion_algos.py: the signals, without the texts of their details.
use artic_trader.Prelude.{ℕ, ◌+◌, ◌-◌, ltb, leb, List, [], ◌∷◌, map, length, if◌then◌else◌}
use artic_trader.Prelude.Exec.{Result, ok}
use artic_trader.Prelude.Results.{◌>>=◌}
use artic_trader.Trading.Float.{FloatOps, PyError, py_div, truthy}
use artic_trader.Trading.Session.{Candle}
use artic_trader.Backtest.Metrics.{MathOps, sum}
use artic_trader.Signals.Series.{
  last_n, window_at, final, max_of, min_of, mean_and_std, clamp, half,
}

module _ {A : Type 0} ⦃o : FloatOps A⦄ (m : MathOps A) where
  unfoldable pub z_score : List A → ℕ → Result PyError A
  z_score prices lookback = if ltb (length prices) lookback then ok (o.lit 0) else (do
    (mean, std) ← mean_and_std m (last_n lookback prices)
    p ← final prices
    z ← py_div (o.sub p mean) std
    ok (clamp 2 (o.neg z)))

  abbrev pub in_bands : A → A → A → A → Result PyError A
  in_bands p mean std num_std =
      if o.eq (o.add mean (o.mul num_std std)) (o.sub mean (o.mul num_std std))
      then ok (o.lit 0)
      else (do
        pos ← if truthy std then py_div (o.sub p mean) (o.mul num_std std) else ok (o.lit 0)
        ok (clamp 1 (o.neg pos)))

  unfoldable pub bollinger_reversion : List A → ℕ → A → Result PyError A
  bollinger_reversion prices period num_std =
      if ltb (length prices) period then ok (o.lit 0) else (do
        (mean, std) ← mean_and_std m (last_n period prices)
        p ← final prices
        in_bands p mean std num_std)

module _ {A : Type 0} ⦃o : FloatOps A⦄ where
  -- The gains and the losses between neighbours.
  abbrev pub gains : List A → List A
  gains [] = []
  gains (x ∷ []) = []
  gains (x ∷ y ∷ ys) = (if o.lt (o.lit 0) (o.sub y x) then o.sub y x else o.lit 0) ∷ gains (y ∷ ys)

  abbrev pub losses : List A → List A
  losses [] = []
  losses (x ∷ []) = []
  losses (x ∷ y ∷ ys) =
      (if o.lt (o.sub y x) (o.lit 0) then o.neg (o.sub y x) else o.lit 0) ∷ losses (y ∷ ys)

  abbrev pub relative_strength : A → A → Result PyError A
  relative_strength avg_gain avg_loss = if o.eq avg_loss (o.lit 0) then ok (o.lit 100) else (do
    rs ← py_div avg_gain avg_loss
    q ← py_div (o.lit 100) (o.add (o.lit 1) rs)
    ok (o.sub (o.lit 100) q))

  -- Half a signal at the ends, and in proportion between them.
  abbrev pub oscillator : A → A → A → Result PyError A
  oscillator x low high =
      if o.le x low
      then ok half
      else if o.le high x
      then ok (o.neg half)
      else py_div (o.sub (o.lit 50) x) (o.lit 50)

  unfoldable pub rsi_signal : List A → ℕ → A → A → Result PyError A
  rsi_signal prices period overbought oversold =
      if ltb (length prices) (period + 1) then ok (o.lit 0) else (do
        avg_gain ← py_div (sum (last_n period (gains prices))) (o.lit period)
        avg_loss ← py_div (sum (last_n period (losses prices))) (o.lit period)
        rsi ← relative_strength avg_gain avg_loss
        sig ← oscillator rsi oversold overbought
        ok (clamp 1 sig))

  abbrev pub faded : A → A → A → Result PyError A
  faded p high low =
      if o.eq high low
      then ok (o.lit 0)
      else (do pos ← py_div (o.sub p low) (o.sub high low); ok (clamp 1 (o.sub half pos)))

  unfoldable pub range_sr : List A → ℕ → Result PyError A
  range_sr prices lookback = if ltb (length prices) lookback then ok (o.lit 0) else (do
    high ← max_of (last_n lookback prices)
    low ← min_of (last_n lookback prices)
    p ← final prices
    faded p high low)

  -- 100 * (close - low) / (high - low)
  abbrev pub percent_k : A → A → A → Result PyError A
  percent_k c high low = py_div (o.mul (o.lit 100) (o.sub c low)) (o.sub high low)

  -- The value of %K at candle `i`.
  abbrev pub k_at : ℕ → ℕ → List (Candle A) → A → Result PyError A
  k_at k_period i candles c = do
    h ← max_of (map (λ x. x.high) (window_at k_period i candles))
    l ← min_of (map (λ x. x.low) (window_at k_period i candles))
    if o.eq h l then ok (o.lit 50) else percent_k c h l

  -- One for each candle from index `i` on.
  unfoldable pub k_values : ℕ → ℕ → List (Candle A) → List (Candle A) → Result PyError (List A)
  k_values k_period i candles [] = ok []
  k_values k_period i candles (c ∷ cs) = do
    v ← k_at k_period i candles c.close_price
    vs ← k_values k_period (i + 1) candles cs
    ok (v ∷ vs)

  abbrev pub after_range : List (Candle A) → ℕ → ℕ → A → A → A → Result PyError A
  after_range candles k_period d_period high low close = if o.eq high low then ok (o.lit 0) else (do
    k ← percent_k close high low
    k_vals ← k_values k_period (length candles - k_period) candles (last_n k_period candles)
    d ←
        if leb d_period (length k_vals)
        then py_div (sum (last_n d_period k_vals)) (o.lit d_period)
        else ok k
    sig ← oscillator k (o.lit 20) (o.lit 80)
    ok (clamp 1 sig))

  abbrev pub ranged : List (Candle A) → ℕ → ℕ → Result PyError A
  ranged candles k_period d_period = do
    high ← max_of (map (λ x. x.high) (last_n k_period candles))
    low ← min_of (map (λ x. x.low) (last_n k_period candles))
    c ← final candles
    after_range candles k_period d_period high low c.close_price

  unfoldable pub stochastic_signal : List (Candle A) → ℕ → ℕ → Result PyError A
  stochastic_signal [] k_period d_period = ok (o.lit 0)
  stochastic_signal (x ∷ xs) k_period d_period =
      if ltb (length (x ∷ xs)) k_period then ok (o.lit 0) else ranged (x ∷ xs) k_period d_period
