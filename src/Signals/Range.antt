-- ===== src/Signals/Range.antt =====
-- The ranges of the signals of app/strategies/quant_algos/mean_reversion_algos.py.
use artic_trader.Prelude.{
  ℕ, ◌+◌, ◌≡◌, true, ltb, leb, List, [], ◌∷◌, length, map, ◌-◌, if_both, if◌then◌else◌,
}
use artic_trader.Prelude.Exec.{Result, ok}
use artic_trader.Prelude.Results.{◌>>=◌, Returns, Returns-any}
use artic_trader.Trading.Float.{FloatOps, PyError, py_div, truthy}
use artic_trader.Trading.Clamp.{OrderLaws, Between, clamp-Between}
use artic_trader.Trading.Session.{Candle}
use artic_trader.Backtest.Metrics.{MathOps, sum}
use artic_trader.Signals.Series.{last_n, final, max_of, min_of, mean_and_std, clamp, half}
use artic_trader.Signals.Reversion.{
  z_score, bollinger_reversion, gains, losses, relative_strength, oscillator, rsi_signal, range_sr,
  percent_k, k_values, after_range, stochastic_signal,
}

module _ {A : Type 0} ⦃o : FloatOps A⦄ where
  abbrev pub Within : ℕ → A → Type 0
  Within b = Between (o.neg (o.lit b)) (o.lit b)

-- Besides the order: the bounds are equal to themselves, as all floats are but NaN, the two ranges are
-- ranges, and zero is in them.
pub record SignalLaws (A : Type 0) ⦃o : FloatOps A⦄ : Type 0 where
  pub order : OrderLaws A
  pub numbers :
      (o.eq (o.lit 1) (o.lit 1) ≡ true)
      × (o.eq (o.lit 2) (o.lit 2) ≡ true)
      × (o.eq (o.neg (o.lit 1)) (o.neg (o.lit 1)) ≡ true)
      × (o.eq (o.neg (o.lit 2)) (o.neg (o.lit 2)) ≡ true)
  pub one : o.le (o.neg (o.lit 1)) (o.lit 1) ≡ true
  pub two : o.le (o.neg (o.lit 2)) (o.lit 2) ≡ true
  pub zero_one : Within 1 (o.lit 0)
  pub zero_two : Within 2 (o.lit 0)

module _ {A : Type 0} ⦃o : FloatOps A⦄ (laws : SignalLaws A) where
  pub any_one :
      {X : Type 0} (r : Result PyError X) (f : X → Result PyError A)
      → ((x : X) → Returns (Within 1) (f x))
      → Returns (Within 1) (r >>= f)
  any_one r f h = Returns-any (Within 1) r f h

  pub clamp_one : (x : A) → Within 1 (clamp 1 x)
  unfolding clamp
  clamp_one x =
      let (one, two, minus_one, minus_two) = laws.numbers in
      clamp-Between laws.order (o.neg (o.lit 1)) (o.lit 1) x minus_one one laws.one

  pub clamp_two : (x : A) → Within 2 (clamp 2 x)
  unfolding clamp
  clamp_two x =
      let (one, two, minus_one, minus_two) = laws.numbers in
      clamp-Between laws.order (o.neg (o.lit 2)) (o.lit 2) x minus_two two laws.two

  pub z_score-Within :
      (m : MathOps A) (prices : List A) (lookback : ℕ)
      → Returns (Within 2) (z_score m prices lookback)
  unfolding z_score
  z_score-Within m prices lookback =
      if_both (Returns (Within 2)) (ltb (length prices) lookback) _ _ laws.zero_two (
        Returns-any (Within 2) (mean_and_std m (last_n lookback prices)) _ (λ ms.
          Returns-any (Within 2) (final prices) _ (λ p.
            Returns-any (Within 2) (py_div (o.sub p ms.0) ms.1) _ (λ z. clamp_two (o.neg z)))))

  pub bollinger-Within :
      (m : MathOps A) (prices : List A) (period : ℕ) (num_std : A)
      → Returns (Within 1) (bollinger_reversion m prices period num_std)
  unfolding bollinger_reversion
  bollinger-Within m prices period num_std =
      if_both (Returns (Within 1)) (ltb (length prices) period) _ _ laws.zero_one (
        any_one (mean_and_std m (last_n period prices)) _ (λ ms. any_one (final prices) _ (λ p.
          if_both (Returns (Within 1))
            (o.eq (o.add ms.0 (o.mul num_std ms.1)) (o.sub ms.0 (o.mul num_std ms.1))) _ _
            laws.zero_one
            (any_one
              (if truthy ms.1 then py_div (o.sub p ms.0) (o.mul num_std ms.1) else ok (o.lit 0))
              (λ pos. ok (clamp 1 (o.neg pos))) (λ pos. clamp_one (o.neg pos))))))

  pub rsi-Within :
      (prices : List A) (period : ℕ) (overbought oversold : A)
      → Returns (Within 1) (rsi_signal prices period overbought oversold)
  unfolding rsi_signal
  rsi-Within prices period overbought oversold =
      if_both (Returns (Within 1)) (ltb (length prices) (period + 1)) _ _ laws.zero_one (
        any_one (py_div (sum (last_n period (gains prices))) (o.lit period)) _ (λ ag.
          any_one (py_div (sum (last_n period (losses prices))) (o.lit period)) _ (λ al.
            any_one (relative_strength ag al) _ (λ rsi.
              any_one (oscillator rsi oversold overbought) (λ sig. ok (clamp 1 sig)) clamp_one))))

  pub range_sr-Within :
      (prices : List A) (lookback : ℕ) → Returns (Within 1) (range_sr prices lookback)
  unfolding range_sr
  range_sr-Within prices lookback =
      if_both (Returns (Within 1)) (ltb (length prices) lookback) _ _ laws.zero_one (
        any_one (max_of (last_n lookback prices)) _ (λ high.
          any_one (min_of (last_n lookback prices)) _ (λ low. any_one (final prices) _ (λ p.
            if_both (Returns (Within 1)) (o.eq high low) _ _ laws.zero_one (
              any_one (py_div (o.sub p low) (o.sub high low)) (λ pos. ok (clamp 1 (o.sub half pos)))
                (λ pos. clamp_one (o.sub half pos)))))))

  after_range-Within :
      (cs : List (Candle A)) (k d : ℕ) (high low c : A)
      → Returns (Within 1) (after_range cs k d high low c)
  after_range-Within cs k d high low c =
      if_both (Returns (Within 1)) (o.eq high low) _ _ laws.zero_one (
        any_one (percent_k c high low) _ (λ pk.
          any_one (k_values k (length cs - k) cs (last_n k cs)) _ (λ vs.
            any_one (if leb d (length vs) then py_div (sum (last_n d vs)) (o.lit d) else ok pk) _
              (λ dv.
                any_one (oscillator pk (o.lit 20) (o.lit 80)) (λ sig. ok (clamp 1 sig))
                  clamp_one))))

  pub stochastic-Within :
      (candles : List (Candle A)) (k d : ℕ) → Returns (Within 1) (stochastic_signal candles k d)
  unfolding stochastic_signal
  stochastic-Within [] k d = laws.zero_one
  stochastic-Within (x ∷ xs) k d =
      if_both (Returns (Within 1)) (ltb (length (x ∷ xs)) k) _ _ laws.zero_one (
        any_one (max_of (map (λ c. c.high) (last_n k (x ∷ xs)))) _ (λ high.
          any_one (min_of (map (λ c. c.low) (last_n k (x ∷ xs)))) _ (λ low.
            any_one (final (x ∷ xs)) _
              (λ c. after_range-Within (x ∷ xs) k d high low c.close_price))))

  -- Every mean-reversion signal that is returned is in its range, whatever the prices are: between -2
  -- and 2 for the z-score, and between -1 and 1 for the others.
  pub reversion-Within :
      (m : MathOps A) (prices : List A) (candles : List (Candle A)) (n d : ℕ) (x y : A)
      → Returns (Within 2) (z_score m prices n)
        × Returns (Within 1) (bollinger_reversion m prices n x)
        × Returns (Within 1) (rsi_signal prices n x y)
        × Returns (Within 1) (range_sr prices n)
        × Returns (Within 1) (stochastic_signal candles n d)
  reversion-Within m prices candles n d x y = (
    z_score-Within m prices n,
    bollinger-Within m prices n x,
    rsi-Within prices n x y,
    range_sr-Within prices n,
    stochastic-Within candles n d,
  )
