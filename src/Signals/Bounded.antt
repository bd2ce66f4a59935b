-- ===== src/Signals/Bounded.antt =====
-- The ranges of the signals on prices of app/strategies but those of mean reversion.
use artic_trader.Prelude.{
  ℕ, Bool, true, false, ◌+◌, ◌-◌, ◌*◌, ◌==◌, ◌&&◌, ltb, List, [], ◌∷◌, length, take, drop, if_both,
  if◌then◌else◌,
}
use artic_trader.Prelude.Exec.{Result, ok}
use artic_trader.Prelude.Results.{Returns, Returns-any}
use artic_trader.Trading.Float.{FloatOps, PyError, py_div, py_max, py_abs}
use artic_trader.Backtest.Metrics.{MathOps, sum}
use artic_trader.Signals.Series.{last_n, final, max_of, min_of, mean_and_std, clamp, half, std_of}
use artic_trader.Signals.Momentum.{
  elem, elem_back, beyond, breakout, donchian_channel, ema_series, macd_line, scaled, macd_signal,
}
use artic_trader.Signals.Trend.{bollinger_squeeze, window_before, width_of}
use artic_trader.Signals.Statistical.{
  sum_squares, sum_range, from_line, reverting, products, residuals, squared, filtered, from_fair,
  linear_regression_channel, kalman_fair_value,
}
use artic_trader.Signals.Fallback.{demo_level, signal_demo_mode}
use artic_trader.Signals.Range.{Within, SignalLaws, any_one, clamp_one, clamp_two}

-- The constants that the code returns are in the range.
pub record RangeLaws (A : Type 0) ⦃o : FloatOps A⦄ : Type 0 where
  pub base : SignalLaws A
  pub halves : Within {A = A} 1 half × Within {A = A} 1 (o.neg half)
  pub four_tenths :
      Within 1 (o.quot (o.lit 4) (o.lit 10)) × Within 1 (o.neg (o.quot (o.lit 4) (o.lit 10)))
  pub six_tenths :
      Within 1 (o.quot (o.lit 6) (o.lit 10)) × Within 1 (o.neg (o.quot (o.lit 6) (o.lit 10)))

module _ {A : Type 0} ⦃o : FloatOps A⦄ (laws : RangeLaws A) where
  abbrev pub One : Result PyError A → Type 0
  One r = Returns (Within 1) r

  abbrev pub Small : A → Type 0
  Small x = Within 1 x

  pub plus_one : Within 1 (o.lit 1)
  plus_one =
      let (one, two, minus_one, minus_two) = laws.base.numbers in
      (laws.base.one, laws.base.order.eq→le (o.lit 1) one)

  minus_one : Within 1 (o.neg (o.lit 1))
  minus_one =
      let (one, two, minus_one, minus_two) = laws.base.numbers in
      (laws.base.order.eq→le (o.neg (o.lit 1)) minus_one, laws.base.one)

  pub zero_one : Within 1 (o.lit 0)
  zero_one = laws.base.zero_one

  pub sign-Within : (b : Bool) → Within 1 (if b then o.lit 1 else o.neg (o.lit 1))
  sign-Within true = plus_one
  sign-Within false = minus_one

  pub beyond-Within : (p high low : A) → Within 1 (beyond p high low)
  beyond-Within p high low =
      if_both Small (o.lt high p) _ _ plus_one (if_both Small (o.lt p low) _ _ minus_one zero_one)

  -- A test first, and then a signal that is in the range.
  pub guarded : (b : Bool) (r : Result PyError A) → One r → One (if b then ok (o.lit 0) else r)
  guarded true r h = zero_one
  guarded false r h = h

  pub breakout-Within : (prices : List A) (period : ℕ) → One (breakout prices period)
  unfolding breakout
  breakout-Within prices period = guarded (ltb (length prices) (period + 1)) _ (
      any_one laws.base
        (max_of (drop (length prices - (period + 1)) (take (length prices - 1) prices))) _
        (λ high.
          any_one laws.base
            (min_of (drop (length prices - (period + 1)) (take (length prices - 1) prices))) _
            (λ low. any_one laws.base (final prices) _ (λ p. beyond-Within p high low))))

  pub donchian-Within : (prices : List A) (period : ℕ) → One (donchian_channel prices period)
  unfolding donchian_channel
  donchian-Within prices period = guarded (ltb (length prices) period) _ (
      any_one laws.base (max_of (last_n period prices)) _ (λ high.
        any_one laws.base (min_of (last_n period prices)) _ (λ low.
          any_one laws.base (final prices) _ (λ p.
            any_one laws.base (py_div (o.add high low) (o.lit 2)) _ (λ mid.
              guarded (o.eq mid (o.lit 0)) _ (
                guarded (o.eq high low) _ (
                  any_one laws.base (py_div (o.sub p mid) (o.sub high low)) _
                    (clamp_one laws.base))))))))

  pub macd-Within : (prices : List A) (fast slow n : ℕ) → One (macd_signal prices fast slow n)
  unfolding macd_signal
  macd-Within prices fast slow n = guarded (ltb (length prices) (slow + n)) _ (
      any_one laws.base (ema_series prices fast) _ (λ ema_f.
        any_one laws.base (ema_series prices slow) _ (λ ema_s.
          any_one laws.base (macd_line ema_f slow fast 0 ema_s) _ (λ line.
            guarded (ltb (length line) n) _ (
              any_one laws.base (py_div (sum (last_n n line)) (o.lit n)) _ (λ sig_ema.
                any_one laws.base (final line) _ (λ macd_val.
                  any_one laws.base (final prices) _ (λ p.
                    any_one laws.base (scaled (o.sub macd_val sig_ema) p) _
                      (clamp_one laws.base)))))))))

  pub squeeze-Within :
      (m : MathOps A) (prices : List A) (period : ℕ) (w : A)
      → One (bollinger_squeeze m prices period w)
  unfolding bollinger_squeeze
  squeeze-Within m prices period w = guarded (ltb (length prices) (period * 2)) _ (
      any_one laws.base (mean_and_std m (last_n period prices)) _ (λ s.
        any_one laws.base (width_of m s.0 s.1) _ (λ width.
          any_one laws.base (mean_and_std m (window_before period prices)) _ (λ t.
            any_one laws.base (width_of m t.0 t.1) _ (λ prev.
              any_one laws.base (final prices) _ (λ p.
                if_both Small (o.lt (o.lit 0) prev && o.lt (o.mul prev (o.add (o.lit 1) w)) width) _
                  _ (sign-Within (o.lt s.0 p)) zero_one))))))

  pub demo-Within : (prices : List A) → One (signal_demo_mode prices)
  unfolding signal_demo_mode
  demo-Within prices = guarded (ltb (length prices) 4) _ (
      any_one laws.base (elem (last_n 4 prices) 0) _ (λ oldest.
        any_one laws.base (final (last_n 4 prices)) _ (λ newest.
          any_one laws.base (elem_back (last_n 4 prices) 2) _ (λ before.
            guarded (o.eq oldest (o.lit 0)) _ (
              any_one laws.base (py_div (o.sub newest oldest) oldest) _
                (λ q. level (o.mul q (o.lit 10000)) newest before))))))
    where
      level : (bps newest before : A) → Within 1 (demo_level bps newest before)
      level bps newest before =
          if_both Small (o.eq bps (o.lit 0)) _ _
            (if_both Small (o.le before newest) _ _ laws.six_tenths.0 laws.six_tenths.1)
            (if_both Small (o.lt (py_abs (clamp 1 bps)) (o.quot (o.lit 4) (o.lit 10))) _ _
              (if_both Small (o.le (o.lit 0) (clamp 1 bps)) _ _ laws.four_tenths.0
                laws.four_tenths.1)
              (clamp_one laws.base bps))

  -- Those that are clamped to two.
  abbrev Two : Result PyError A → Type 0
  Two r = Returns (Within 2) r

  from_line-Within : (m : MathOps A) (prices y : List A) (n : ℕ) → Two (from_line m prices y n)
  from_line-Within m prices y n =
      Returns-any (Within 2)
        (py_div (o.sub (o.mul (o.lit n) (sum (products y))) (o.mul (o.lit (sum_range n)) (sum y)))
          (o.lit (n * sum_squares n - sum_range n * sum_range n)))
        _
        (λ slope.
          Returns-any (Within 2)
            (py_div (o.sub (sum y) (o.mul slope (o.lit (sum_range n)))) (o.lit n)) _
            (λ intercept.
              Returns-any (Within 2)
                (py_div (sum (squared (residuals intercept slope y)))
                  (o.lit (length (residuals intercept slope y))))
                _
                (λ var. Returns-any (Within 2) (final prices) _ (λ p.
                  Returns-any (Within 2)
                    (reverting p (o.add intercept (o.mul slope (o.lit (n - 1)))) (std_of m var)) _
                    (clamp_two laws.base)))))

  pub line-Within :
      (m : MathOps A) (prices : List A) (n : ℕ) → Two (linear_regression_channel m prices n)
  unfolding linear_regression_channel
  line-Within m prices n = if_both Two (ltb (length prices) n) _ _ laws.base.zero_two (
      if_both Two (n * sum_squares n == sum_range n * sum_range n) _ _ laws.base.zero_two
        (from_line-Within m prices (last_n n prices) n))

  pub kalman-Within :
      (root : A → A) (prices : List A) (q r : A) → Two (kalman_fair_value root prices q r)
  unfolding kalman_fair_value
  kalman-Within root [] q r = laws.base.zero_two
  kalman-Within root (x ∷ xs) q r = if_both Two (ltb (length (x ∷ xs)) 5) _ _ laws.base.zero_two (
      Returns-any (Within 2) (filtered q r x (o.lit 1) xs) _ (λ s.
        Returns-any (Within 2) (final (x ∷ xs)) _ (λ p.
          Returns-any (Within 2)
            (from_fair p s.0 (root (py_max s.1 (o.quot (o.lit 1) (o.lit 1000000))))) _
            (clamp_two laws.base))))
