-- ===== src/Signals/Tests.antt =====
-- Signals of app/strategies on whole numbers, where what is below zero is zero.
use artic_trader.Prelude.{ℕ, List, [], ◌∷◌, ◌≡◌, refl, arith}
use artic_trader.Prelude.Exec.{ok, err}
use artic_trader.Trading.Float.{value_error}
use artic_trader.Trading.Session.{Candle}
use artic_trader.Trading.Whole.{whole}
use artic_trader.Backtest.Metrics.{MathOps}
use artic_trader.Signals.Series.{last_n, window_at, final, max_of, min_of, clamp}
use artic_trader.Signals.Reversion.{range_sr, k_values, stochastic_signal}
use artic_trader.Signals.Range.{SignalLaws}
use artic_trader.Signals.Warmup.{IsRaised, stochastic_signal-raises}

abbrev math : MathOps ℕ
math = record { sqrt = λ x. x; square = λ x. ok x }

abbrev prices : List ℕ
prices = 10 ∷ 12 ∷ 11 ∷ 9 ∷ []

abbrev candle : ℕ → Candle ℕ
candle n = record { open_price = n; high = n; low = n; close_price = n; volume = 1 }

abbrev candles : List (Candle ℕ)
candles = candle 10 ∷ candle 12 ∷ candle 11 ∷ candle 9 ∷ []

laws : SignalLaws ℕ ⦃o = whole⦄
laws = record {
  order = record { eq→le = λ x e. ground arith; lt→le = λ x y h. ground arith };
  numbers = (refl, refl, refl, refl);
  one = refl;
  two = refl;
  zero_one = (refl, refl);
  zero_two = (refl, refl);
}

raises : stochastic_signal ⦃o = whole⦄ candles 3 2 ≡ err value_error
unfolding stochastic_signal k_values last_n window_at final max_of min_of
raises = refl

fades : range_sr ⦃o = whole⦄ prices 4 ≡ ok 0
unfolding range_sr last_n final max_of min_of clamp
fades = refl

stochastic_signal-raises_example : IsRaised (stochastic_signal ⦃o = whole⦄ candles 3 2)
unfolding max_of min_of last_n
stochastic_signal-raises_example =
    stochastic_signal-raises ⦃o = whole⦄ candles 3 2 12 9 (omega arith) (omega arith) refl refl refl
