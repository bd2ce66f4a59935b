-- ===== src/Signals/Warmup.antt =====
-- The stochastic signal of app/strategies/quant_algos/mean_reversion_algos.py on few candles.
use artic_trader.Prelude.{
  ℕ, zero, suc, ◌+◌, ◌-◌, ◌≤◌, ◌<◌, ◌≡◌, refl, false, ltb, leb, List, [], ◌∷◌, length, take,
  length-take_le, drop_all, length-drop, map, arith,
}
use artic_trader.Prelude.Exec.{Result, ok, err}
use artic_trader.Prelude.Results.{◌>>=◌}
use artic_trader.Trading.Float.{FloatOps, PyError, value_error}
use artic_trader.Trading.Session.{Candle}
use artic_trader.Signals.Series.{last_n, window_at, final, max_of, min_of}
use artic_trader.Signals.Reversion.{percent_k, k_values, after_range, stochastic_signal}

-- A call that raises, by whatever exception.
abbrev pub IsRaised : {B : Type 0} → Result PyError B → Type 0
IsRaised (ok x) = ⊥
IsRaised (err e) = Unit {0}

module _ {A : Type 0} where
  -- The window of a candle whose start is before the first: the slice ends before it begins.
  window_at-empty :
      (k : ℕ) (xs : List A)
      → k ≤ length xs
      → length xs + 1 < k + k
      → window_at k (length xs - k) xs ≡ []
  unfolding window_at
  window_at-empty k xs h l = rw not_yet (drop_all _ (take (length xs - k + 1) xs) short)
    where
      not_yet : leb k (length xs - k + 1) ≡ false
      not_yet = ground (arith, h, l)

      short : length (take (length xs - k + 1) xs) ≤ length xs + (length xs - k + 1) - k
      short = omega (arith, length-take_le (length xs - k + 1) xs, h)

  length-last_n : (k : ℕ) (xs : List A) → 0 < k → k ≤ length xs → length (last_n k xs) ≡ k
  unfolding last_n
  length-last_n zero xs p h = omega (arith, p)
  length-last_n (suc k) xs p h = grind (arith, length-drop (length xs - suc k) xs, h)

module _ {A : Type 0} ⦃o : FloatOps A⦄ where
  k_values-raises :
      (k : ℕ) (candles rest : List (Candle A))
      → k ≤ length candles
      → length candles + 1 < k + k
      → 0 < length rest
      → k_values k (length candles - k) candles rest ≡ err value_error
  unfolding k_values max_of
  k_values-raises k candles [] h l p = ground (arith, p)
  k_values-raises k candles (c ∷ cs) h l p = rw (window_at-empty k candles h l) refl

  whatever_first :
      {X : Type 0} (r : Result PyError X) (f : X → Result PyError A)
      → ((x : X) → IsRaised (f x))
      → IsRaised (r >>= f)
  whatever_first (ok x) f h = h x
  whatever_first (err e) f h = tt

  after_range-raises :
      (candles : List (Candle A)) (k d : ℕ) (high low c : A)
      → k ≤ length candles
      → length candles + 1 < k + k
      → o.eq high low ≡ false
      → IsRaised (after_range candles k d high low c)
  after_range-raises candles k d high low c h l apart =
      rw apart (whatever_first (percent_k c high low) _ (λ pk. rw raises tt))
    where
      raises : k_values k (length candles - k) candles (last_n k candles) ≡ err value_error
      raises =
          k_values-raises k candles (last_n k candles) h l
            (omega (arith, length-last_n k candles (omega (arith, h, l)) h, h, l))

  -- With at least the period of candles, but fewer than twice the period less one, the stochastic signal
  -- raises, unless the highest and the lowest price of the last candles are equal.
  pub stochastic_signal-raises :
      (candles : List (Candle A)) (k d : ℕ) (high low : A)
      → k ≤ length candles
      → length candles + 1 < k + k
      → max_of (map (λ c. c.high) (last_n k candles)) ≡ ok high
      → min_of (map (λ c. c.low) (last_n k candles)) ≡ ok low
      → o.eq high low ≡ false
      → IsRaised (stochastic_signal candles k d)
  unfolding stochastic_signal
  stochastic_signal-raises [] k d high low h l hi lo apart = omega (arith, h, l)
  stochastic_signal-raises (x ∷ xs) k d high low h l hi lo apart =
      rw (enough, hi, lo)
        (whatever_first (final (x ∷ xs)) _
          (λ c. after_range-raises (x ∷ xs) k d high low c.close_price h l apart))
    where
      enough : ltb (length (x ∷ xs)) k ≡ false
      enough = ground (arith, h)
