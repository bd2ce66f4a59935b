-- ===== src/Strategies/Simulated.antt =====
-- The backtest engine (user-server/user_server/backtest/engine.py) run with the `tick` of
-- user-server/user_server/strategies/runner.py, which is what it runs without a `tick_fn`. A strategy
-- that writes to the dicts of its ctx is not followed, as for `Tick`.
use artic_trader.Prelude.{Option, none, some, List}
use artic_trader.Prelude.Exec.{Result, ok, err}
use artic_trader.Trading.Float.{FloatOps}
use artic_trader.Trading.Session.{Candle}
use artic_trader.Backtest.Orders.{Position, missing, number, Signal, Tick}
use artic_trader.Strategies.Python.{Interpreter, Failure}
use artic_trader.Strategies.Loader.{StrategyHandle}
use artic_trader.Strategies.Tick.{Decision, tick}

module _ {A : Type 0} where
  -- The engine's view of what `tick` returns or raises: the dict has three keys.
  abbrev pub signal_from : Result Failure (Decision A) → Option (Signal A)
  signal_from (err e) = none
  signal_from (ok d) = some (record {
    action = d.action;
    size = number d.size;
    stop_loss = missing;
    take_profit = missing;
  })

module _ {V A Code W : Type 0} (I : Interpreter V A Code W) ⦃o : FloatOps A⦄
    (context : List (Candle A) → Option (Position A) → V) where
  -- tick_fn(handle, ctx) in the engine's `try`
  unfoldable pub runner_tick : StrategyHandle V → Tick A W
  runner_tick h window position w =
      let (r, w') = tick I h (context window position) w in (signal_from r, w')
