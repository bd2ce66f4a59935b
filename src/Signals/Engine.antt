-- ===== src/Signals/Engine.antt =====
-- app/engine.py with the signals of app/strategies/signals.py in the place of its feed's.
use artic_trader.Trading.Float.{FloatOps}
use artic_trader.Trading.Loop.{Feed}
use artic_trader.Signals.Dispatch.{Library, compute_strategy_signal}

module _ {A W : Type 0} ⦃o : FloatOps A⦄ where
  -- `_compute_strategy_signal` of the engine
  unfoldable pub with_signals : Library A → Feed A W → Feed A W
  with_signals l f = record f {
    compute_strategy_signal =
        λ plan prices candles w. (compute_strategy_signal l plan.strategy plan prices candles, w);
  }
