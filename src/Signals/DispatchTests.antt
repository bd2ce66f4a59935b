-- ===== src/Signals/DispatchTests.antt =====
-- Signals by their names, on whole numbers, where what is below zero is zero.
use artic_trader.Prelude.{ℕ, [], ◌∷◌, ◌≡◌, refl, arith, some}
use artic_trader.Prelude.Exec.{ok}
use artic_trader.Prelude.Results.{Returns}
use artic_trader.Trading.Session.{StrategyPlan}
use artic_trader.Trading.Whole.{whole}
use artic_trader.Signals.Series.{final, max_of, min_of}
use artic_trader.Signals.Momentum.{simple_momentum, breakout, elem_back}
use artic_trader.Signals.Dispatch.{Library, compute_strategy_signal}
use artic_trader.Signals.Bounded.{RangeLaws}
use artic_trader.Signals.Limits.{InLimit, compute_strategy_signal-InLimit}

abbrev library : Library ℕ
library = record {
  math = record { sqrt = λ x. x; square = λ x. ok x };
  root = λ x. x;
  lower_strip = λ s. s;
}

abbrev plan : StrategyPlan ℕ
plan = record { strategy = "breakout"; lookback = 3; threshold = 1; max_loss_pct = 1 }

laws : RangeLaws ℕ ⦃o = whole⦄
laws = record {
  base = record {
    order = record { eq→le = λ x e. ground arith; lt→le = λ x y h. ground arith };
    numbers = (refl, refl, refl, refl);
    one = refl;
    two = refl;
    zero_one = (refl, refl);
    zero_two = (refl, refl);
  };
  halves = ((refl, refl), (refl, refl));
  four_tenths = ((refl, refl), (refl, refl));
  six_tenths = ((refl, refl), (refl, refl));
}

breaks_out :
    compute_strategy_signal ⦃o = whole⦄ library "breakout" plan (9 ∷ 8 ∷ 7 ∷ 10 ∷ []) [] ≡ ok 1
unfolding compute_strategy_signal breakout max_of min_of final
breaks_out = refl

without_candles :
    compute_strategy_signal ⦃o = whole⦄ library "supertrend" plan (4 ∷ 6 ∷ 8 ∷ []) [] ≡ ok 1
unfolding compute_strategy_signal simple_momentum elem_back final
without_candles = refl

compute_strategy_signal-InLimit_example :
    Returns
      (InLimit ⦃o = whole⦄ (some 1))
      (compute_strategy_signal ⦃o = whole⦄ library "breakout" plan (9 ∷ 8 ∷ 7 ∷ 10 ∷ []) [])
compute_strategy_signal-InLimit_example =
    compute_strategy_signal-InLimit ⦃o = whole⦄ laws library "breakout" plan (9 ∷ 8 ∷ 7 ∷ 10 ∷ [])
      []
