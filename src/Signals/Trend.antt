-- ===== src/Signals/Trend.antt =====
-- The candle signals of app/strategies/quant_algos/momentum_algos.py and volatility_algos.py, without
-- the texts of their details. `_atr` stands in both files, the same.
use artic_trader.Prelude.{
  ℕ, Bool, true, false, ◌+◌, ◌-◌, ◌*◌, ◌==◌, ◌&&◌, not, ltb, leb, Option, none, some, List, [], ◌∷◌,
  map, length, take, drop, if◌then◌else◌,
}
use artic_trader.Prelude.Exec.{Result, ok}
use artic_trader.Prelude.Results.{◌>>=◌}
use artic_trader.Trading.Float.{FloatOps, PyError, py_div, py_max, py_abs, truthy}
use artic_trader.Trading.Session.{Candle}
use artic_trader.Backtest.Metrics.{MathOps, sum}
use artic_trader.Signals.Series.{last_n, final, max_of, min_of, mean_and_std, clamp, half}
use artic_trader.Signals.Momentum.{beyond}

module _ {A : Type 0} ⦃o : FloatOps A⦄ where
  -- What a function says of each candle and the one before it.
  abbrev pub pairwise : {B : Type 0} → (Candle A → Candle A → B) → List (Candle A) → List B
  pairwise f [] = []
  pairwise f (p ∷ []) = []
  pairwise f (p ∷ c ∷ cs) = f p c ∷ pairwise f (c ∷ cs)

  abbrev pub true_range : Candle A → Candle A → A
  true_range p c =
      py_max (py_max (o.sub c.high c.low) (py_abs (o.sub c.high p.close_price)))
        (py_abs (o.sub c.low p.close_price))

  unfoldable pub atr : List (Candle A) → ℕ → Result PyError (Option A)
  atr candles period =
      if ltb (length candles) (period + 1)
      then ok none
      else (let ranges = pairwise true_range candles in
          if leb period (length ranges)
          then (do a ← py_div (sum (last_n period ranges)) (o.lit period); ok (some a))
          else ok none)

  -- The range, unless it is missing or not positive.
  abbrev pub positive : Option A → Option A
  positive none = none
  positive (some a) = if o.le a (o.lit 0) then none else some a

  -- the move on one side, if it is the greater and upwards
  abbrev pub one_sided : A → A → A
  one_sided up down = if o.lt down up && o.lt (o.lit 0) up then up else o.lit 0

  abbrev pub plus_dm : Candle A → Candle A → A
  plus_dm p c = one_sided (o.sub c.high p.high) (o.sub p.low c.low)

  abbrev pub minus_dm : Candle A → Candle A → A
  minus_dm p c = one_sided (o.sub p.low c.low) (o.sub c.high p.high)

  -- 100 * sum(dm[-n:]) / n / atr if atr else 0
  abbrev pub directional : List A → ℕ → A → Result PyError A
  directional dm n a =
      if truthy a
      then (do x ← py_div (o.mul (o.lit 100) (sum (last_n n dm))) (o.lit n); py_div x a)
      else ok (o.lit 0)

  -- 100 * abs(plus_di - minus_di) / (plus_di + minus_di) if (plus_di + minus_di) else 0
  abbrev pub direction_index : A → A → Result PyError A
  direction_index p m =
      if truthy (o.add p m)
      then py_div (o.mul (o.lit 100) (py_abs (o.sub p m))) (o.add p m)
      else ok (o.lit 0)

  abbrev pub trending : List (Candle A) → ℕ → A → Result PyError A
  trending candles n threshold =
      if ltb (length (pairwise true_range candles)) n then ok (o.lit 0) else (do
        a ← py_div (sum (last_n n (pairwise true_range candles))) (o.lit n)
        plus_di ← directional (pairwise plus_dm candles) n a
        minus_di ← directional (pairwise minus_dm candles) n a
        dx ← direction_index plus_di minus_di
        ok (if o.le threshold dx then o.lit 1 else o.lit 0))

  unfoldable pub adx_filter : List (Candle A) → ℕ → A → Result PyError A
  adx_filter [] period threshold = ok (o.lit 0)
  adx_filter (c ∷ cs) period threshold =
      if ltb (length (c ∷ cs)) (period * 2)
      then ok (o.lit 0)
      else trending (c ∷ cs) period threshold

  abbrev pub in_trend : A → Candle A → Option A → Result PyError A
  in_trend mult last none = ok (o.lit 0)
  in_trend mult last (some a) = do
    hl2 ← py_div (o.add last.high last.low) (o.lit 2)
    ok (beyond last.close_price (o.add hl2 (o.mul mult a)) (o.sub hl2 (o.mul mult a)))

  unfoldable pub supertrend : List (Candle A) → ℕ → A → Result PyError A
  supertrend candles period mult =
      if ltb (length candles) (period + 1)
      then ok (o.lit 0)
      else (do a ← atr candles period; last ← final candles; in_trend mult last (positive a))

  -- The middle of the highest high and the lowest low.
  abbrev pub middle : List (Candle A) → Result PyError A
  middle cs = do
    high ← max_of (map (λ c. c.high) cs)
    low ← min_of (map (λ c. c.low) cs)
    py_div (o.add high low) (o.lit 2)

  abbrev pub crossed : A → A → A
  crossed tenkan_val kijun_val =
      if o.lt kijun_val tenkan_val
      then o.lit 1
      else if o.lt tenkan_val kijun_val
      then o.neg (o.lit 1)
      else o.lit 0

  -- half, or minus a half, and half of the crossing
  abbrev pub beside : Bool → A → A
  beside true cross = o.add half (o.mul half cross)
  beside false cross = o.add (o.neg half) (o.mul half cross)

  unfoldable pub ichimoku_signal : List (Candle A) → ℕ → ℕ → ℕ → Result PyError A
  ichimoku_signal [] tenkan kijun senkou = ok (o.lit 0)
  ichimoku_signal (c ∷ cs) tenkan kijun senkou =
      if ltb (length (c ∷ cs)) senkou then ok (o.lit 0) else (do
        tenkan_val ← middle (last_n tenkan (c ∷ cs))
        kijun_val ← middle (last_n kijun (c ∷ cs))
        last ← final (c ∷ cs)
        ok (clamp 1 (beside (o.lt kijun_val last.close_price) (crossed tenkan_val kijun_val))))

  abbrev pub expanded : A → Candle A → Option A → Result PyError A
  expanded mult last none = ok (o.lit 0)
  expanded mult last (some a) =
      if not (o.lt (o.mul a mult) (o.sub last.high last.low))
      then ok (o.lit 0)
      else if o.eq last.high last.low
      then ok (o.lit 0)
      else (do
        pos ← py_div (o.sub last.close_price last.low) (o.sub last.high last.low)
        ok (if o.lt half pos then o.lit 1 else o.neg (o.lit 1)))

  unfoldable pub atr_breakout : List (Candle A) → ℕ → A → Result PyError A
  atr_breakout candles period mult =
      if ltb (length candles) (period + 1)
      then ok (o.lit 0)
      else (do a ← atr candles period; last ← final candles; expanded mult last (positive a))

  -- prices[-period * 2 : -period]
  abbrev pub window_before : ℕ → List A → List A
  window_before period prices =
      if period == 0
      then []
      else drop (length prices - period * 2) (take (length prices - period) prices)

  abbrev pub squeezed : A → A → A → A → A → A
  squeezed width prev_width width_pct p mean =
      if o.lt (o.lit 0) prev_width && o.lt (o.mul prev_width (o.add (o.lit 1) width_pct)) width
      then (if o.lt mean p then o.lit 1 else o.neg (o.lit 1))
      else o.lit 0

  abbrev pub or_std : A → Option A → A
  or_std std none = std
  or_std std (some a) = a

  abbrev pub faded_bands : A → A → A → A → A
  faded_bands p mean kc_mult a =
      if o.le (o.add mean (o.mul kc_mult a)) p
      then o.neg half
      else if o.le p (o.sub mean (o.mul kc_mult a))
      then half
      else o.lit 0

module _ {A : Type 0} ⦃o : FloatOps A⦄ (m : MathOps A) where
  -- (2 * std) / mean if mean else 0
  abbrev pub width_of : A → A → Result PyError A
  width_of mean std = if truthy mean then py_div (o.mul (o.lit 2) std) mean else ok (o.lit 0)

  unfoldable pub bollinger_squeeze : List A → ℕ → A → Result PyError A
  bollinger_squeeze prices period width_pct =
      if ltb (length prices) (period * 2) then ok (o.lit 0) else (do
        (mean, std) ← mean_and_std m (last_n period prices)
        width ← width_of mean std
        (prev_mean, prev_std) ← mean_and_std m (window_before period prices)
        prev_width ← width_of prev_mean prev_std
        p ← final prices
        ok (squeezed width prev_width width_pct p mean))

  unfoldable pub keltner_bollinger : List (Candle A) → ℕ → A → Result PyError A
  keltner_bollinger candles period kc_mult =
      if ltb (length candles) (period + 1) then ok (o.lit 0) else (do
        (mean, std) ← mean_and_std m (map (λ c. c.close_price) (last_n period candles))
        a ← atr candles 14
        last ← final candles
        ok (faded_bands last.close_price mean kc_mult (or_std std a)))
