-- ===== src/Signals/Momentum.antt =====
-- app/strategies/quant_algos/momentum_algos.py: the signals that read prices only, without the texts of
-- their details.
use mathlib.Core.List.{foldl}
use artic_trader.Prelude.{
  ℕ, zero, suc, ◌||◌, ◌+◌, ◌-◌, ◌==◌, ltb, leb, Option, none, some, List, [], ◌∷◌, length, take,
  drop, if◌then◌else◌,
}
use artic_trader.Prelude.Exec.{Result, ok, err}
use artic_trader.Prelude.Results.{◌>>=◌}
use artic_trader.Trading.Float.{FloatOps, PyError, index_error, py_div, truthy}
use artic_trader.Backtest.Metrics.{sum}
use artic_trader.Signals.Series.{last_n, final, max_of, min_of, clamp}

module _ {A : Type 0} where
  -- xs[i]
  abbrev pub elem : List A → ℕ → Result PyError A
  elem [] i = err index_error
  elem (x ∷ xs) zero = ok x
  elem (x ∷ xs) (suc i) = elem xs i

  -- xs[-n]
  unfoldable pub elem_back : List A → ℕ → Result PyError A
  elem_back xs n =
      if n == 0
      then elem xs 0
      else if leb n (length xs)
      then elem xs (length xs - n)
      else err index_error

  -- xs[a - b]
  abbrev pub elem_diff : List A → ℕ → ℕ → Result PyError A
  elem_diff xs a b = if leb b a then elem xs (a - b) else elem_back xs (b - a)

module _ {A : Type 0} ⦃o : FloatOps A⦄ where
  -- (x - y) / base, unless the base is zero
  abbrev pub relative : A → A → A → Result PyError A
  relative x y base = if o.eq base (o.lit 0) then ok (o.lit 0) else py_div (o.sub x y) base

  unfoldable pub simple_momentum : List A → ℕ → Result PyError A
  simple_momentum prices lookback =
      if ltb (length prices) lookback || ltb lookback 1
      then ok (o.lit 0)
      else (do p0 ← elem_back prices lookback; p1 ← final prices; relative p1 p0 p0)

  abbrev pub two_momenta : A → A → A → Result PyError A
  two_momenta p p_short p_long = if o.eq p_long (o.lit 0) then ok (o.lit 0) else (do
    mom_short ← py_div (o.sub p p_short) p_long
    mom_long ← py_div (o.sub p p_long) p_long
    ok (o.sub mom_short mom_long))

  unfoldable pub dual_momentum : List A → ℕ → ℕ → Result PyError A
  dual_momentum prices short_lookback long_lookback =
      if ltb (length prices) long_lookback then ok (o.lit 0) else (do
        p ← final prices
        p_short ←
            if leb short_lookback (length prices)
            then elem_back prices short_lookback
            else elem prices 0
        p_long ← elem_back prices long_lookback
        two_momenta p p_short p_long)

  abbrev pub beyond : A → A → A → A
  beyond p high low =
      if o.lt high p then o.lit 1 else if o.lt p low then o.neg (o.lit 1) else o.lit 0

  -- The window ends before the last price.
  unfoldable pub breakout : List A → ℕ → Result PyError A
  breakout prices period = if ltb (length prices) (period + 1) then ok (o.lit 0) else (do
    let window = drop (length prices - (period + 1)) (take (length prices - 1) prices)
    high ← max_of window
    low ← min_of window
    p ← final prices
    ok (beyond p high low))

  abbrev pub in_channel : A → A → A → A → Result PyError A
  in_channel p high low mid =
      if o.eq mid (o.lit 0)
      then ok (o.lit 0)
      else if o.eq high low
      then ok (o.lit 0)
      else (do sig ← py_div (o.sub p mid) (o.sub high low); ok (clamp 1 sig))

  unfoldable pub donchian_channel : List A → ℕ → Result PyError A
  donchian_channel prices period = if ltb (length prices) period then ok (o.lit 0) else (do
    high ← max_of (last_n period prices)
    low ← min_of (last_n period prices)
    p ← final prices
    mid ← py_div (o.add high low) (o.lit 2)
    in_channel p high low mid)

  unfoldable pub ma_crossover : List A → ℕ → ℕ → Result PyError A
  ma_crossover prices fast slow = if ltb (length prices) slow then ok (o.lit 0) else (do
    fast_ma ← py_div (sum (last_n fast prices)) (o.lit fast)
    slow_ma ← py_div (sum (last_n slow prices)) (o.lit slow)
    relative fast_ma slow_ma slow_ma)

  -- One step of an exponential average with the weight `k`.
  abbrev pub ema_step : A → A → A → A
  ema_step k ema price = o.add (o.mul price k) (o.mul ema (o.sub (o.lit 1) k))

  -- 2 / (period + 1)
  abbrev pub ema_weight : ℕ → A
  ema_weight period = o.quot (o.lit 2) (o.lit (period + 1))

  -- The loop runs over prices[-period + 1:].
  unfoldable pub ema : List A → ℕ → Result PyError (Option A)
  ema prices period = if ltb (length prices) period then ok none else (do
    first ← py_div (sum (last_n period prices)) (o.lit period)
    let rest = if ltb period 2 then [] else last_n (period - 1) prices
    ok (some (foldl (ema_step (ema_weight period)) first rest)))

  abbrev pub crossing : Option A → Option A → Result PyError A
  crossing (some e_fast) (some e_slow) = relative e_fast e_slow e_slow
  crossing (some e_fast) none = ok (o.lit 0)
  crossing none e_slow = ok (o.lit 0)

  unfoldable pub ema_crossover : List A → ℕ → ℕ → Result PyError A
  ema_crossover prices fast slow =
      if ltb (length prices) slow
      then ok (o.lit 0)
      else (do e_fast ← ema prices fast; e_slow ← ema prices slow; crossing e_fast e_slow)

  abbrev pub ema_from : A → A → List A → List A
  ema_from k e [] = e ∷ []
  ema_from k e (x ∷ xs) = e ∷ ema_from k (ema_step k e x) xs

  unfoldable pub ema_series : List A → ℕ → Result PyError (List A)
  ema_series prices period = do
    first ← py_div (sum (take period prices)) (o.lit period)
    ok (ema_from (ema_weight period) first (drop period prices))

  -- [ema_f[j + slow - fast] - ema_s[j] for j in range(len(ema_s))], from an index on
  unfoldable pub macd_line : List A → ℕ → ℕ → ℕ → List A → Result PyError (List A)
  macd_line ema_f slow fast j [] = ok []
  macd_line ema_f slow fast j (s ∷ ss) = do
    f ← elem_diff ema_f (j + slow) fast
    rest ← macd_line ema_f slow fast (j + 1) ss
    ok (o.sub f s ∷ rest)

  -- diff / scale if scale else 0, where the scale is a hundredth of the price
  abbrev pub scaled : A → A → Result PyError A
  scaled diff price =
      over (if truthy price then o.mul price (o.quot (o.lit 1) (o.lit 100)) else o.lit 1)
    where
      over : A → Result PyError A
      over scale = if truthy scale then py_div diff scale else ok (o.lit 0)

  abbrev pub against_signal_line : List A → List A → ℕ → Result PyError A
  against_signal_line prices line signal_period =
      if ltb (length line) signal_period then ok (o.lit 0) else (do
        sig_ema ← py_div (sum (last_n signal_period line)) (o.lit signal_period)
        macd_val ← final line
        p ← final prices
        sig ← scaled (o.sub macd_val sig_ema) p
        ok (clamp 1 sig))

  unfoldable pub macd_signal : List A → ℕ → ℕ → ℕ → Result PyError A
  macd_signal prices fast slow signal_period =
      if ltb (length prices) (slow + signal_period) then ok (o.lit 0) else (do
        ema_f ← ema_series prices fast
        ema_s ← ema_series prices slow
        line ← macd_line ema_f slow fast 0 ema_s
        against_signal_line prices line signal_period)
