-- ===== src/Backtest/Tests.antt =====
-- A run of user-server/user_server/backtest/engine.py over twenty-two candles.
use artic_trader.Prelude.{ℕ, zero, suc, ◌≡◌, refl, none, some, List, [], ◌∷◌}
use artic_trader.Prelude.Exec.{ok}
use artic_trader.Trading.Whole.{whole}
use artic_trader.Trading.Session.{Candle}
use artic_trader.Backtest.Metrics.{
  MathOps, sharpe, ratio, squares, returns, max_drawdown, deepen, win_rate, wins, total_return,
}
use artic_trader.Backtest.Orders.{
  long, CloseReason, missing, Outcome, Tick, hit, size_frac, close_position, mtm,
}
use artic_trader.Backtest.Replay.{
  run, full_run, replay, candle_step, check_levels, ask, apply, open_run, close_run, value,
  close_last, outcome,
}
use artic_trader.Backtest.Bounds.{IsBounded, run_bounds}

abbrev math : MathOps ℕ
math = record { sqrt = λ x. x; square = λ x. ok x }

-- Open a long position, and close it as soon as there is one.
abbrev strategy : Tick ℕ ℕ
strategy window none w = (
  some
      (record { action = "OPEN_LONG"; size = missing; stop_loss = missing; take_profit = missing }),
  w,
)
strategy window (some pos) w = (
  some (record { action = "CLOSE"; size = missing; stop_loss = missing; take_profit = missing }),
  w,
)

abbrev candle : Candle ℕ
candle = record { open_price = 10; high = 12; low = 9; close_price = 10; volume = 1 }

abbrev candles_of : ℕ → List (Candle ℕ)
candles_of zero = []
candles_of (suc n) = candle ∷ candles_of n

abbrev result : Outcome ℕ
result = record {
  sharpe = 0;
  max_drawdown = 0;
  total_return = 0;
  win_rate = 0;
  n_trades = 1;
  final_equity = 999;
  equity_curve = 1000 ∷ 1000 ∷ 999 ∷ [];
  trades =
      record {
        side = long;
        entry = 10;
        exit = 10;
        size_usdt = 1000;
        pnl_usdt = 0;
        reason = CloseReason.signal_close;
      }
      ∷ [];
}

runs : run ⦃o = whole⦄ strategy 10 math (candles_of 22) 1000 0 ≡ ok result
unfolding run full_run replay candle_step check_levels hit ask apply open_run size_frac close_run
    close_position value mtm close_last outcome sharpe ratio squares returns max_drawdown deepen
    win_rate wins total_return
runs = refl

run_bounds_example : IsBounded (candles_of 22) result
run_bounds_example = run_bounds ⦃o = whole⦄ strategy 10 math (candles_of 22) 1000 0 runs
