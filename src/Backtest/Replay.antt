-- ===== src/Backtest/Replay.antt =====
-- user-server/user_server/backtest/engine.py: `run`.
use artic_trader.Prelude.{
  ℕ, ◌+◌, ◌-◌, str_eq, ◌&&◌, leb, Option, none, some, List, [], ◌∷◌, ◌++◌, map, length, take, drop,
  if◌then◌else◌,
}
use artic_trader.Prelude.Exec.{Result, ok}
use artic_trader.Prelude.Results.{◌>>=◌}
use artic_trader.Trading.Float.{FloatOps, PyError}
use artic_trader.Trading.Session.{Candle}
use artic_trader.Backtest.Metrics.{MathOps, sharpe, max_drawdown, win_rate, total_return, last}
use artic_trader.Backtest.Orders.{
  Side, CloseReason, Position, Signal, Outcome, Run, Tick, warmup, window_lookback, fee_of,
  close_position, mtm, hit, signal_of, size_frac, level_of, set_last, last_close, started, long,
  short, signal_close, force_close,
}

module _ {A W : Type 0} ⦃o : FloatOps A⦄ (fee_bps : A) where
  unfoldable pub close_run : Position A → A → CloseReason → Run A W → Result PyError (Run A W)
  unfolding close_position
  close_run pos exit_price reason r = do
    closed ← close_position pos exit_price fee_bps r.cash reason
    ok (record r { cash = closed.0; position = none; trades = r.trades ++ closed.1 ∷ [] })

  abbrev pub close_at_hit :
      Position A → Option (A × CloseReason) → Run A W → Result PyError (Run A W)
  close_at_hit pos none r = ok r
  close_at_hit pos (some (price, reason)) r = close_run pos price reason r

  -- 1) the levels of the position on hand
  unfoldable pub check_levels : Option (Position A) → Candle A → Run A W → Result PyError (Run A W)
  unfolding hit
  check_levels none candle r = ok r
  check_levels (some pos) candle r = close_at_hit pos (hit pos candle.high candle.low) r

  abbrev pub entered : Side → A → A → Option A → Option A → Run A W → Run A W
  entered side price size sl tp r = record r {
    position =
        some (record {
          side = side;
          entry = price;
          size_usdt = size;
          stop_loss = sl;
          take_profit = tp;
        });
    cash = o.sub r.cash (o.add size (fee_of size fee_bps));
  }

  unfoldable pub open_run : Side → A → Signal A → Run A W → Result PyError (Run A W)
  unfolding size_frac
  open_run side price signal r =
      if o.lt (o.lit 0) r.cash && o.lt (o.lit 0) (size_frac signal.size)
      then (do
        sl ← level_of signal.stop_loss
        tp ← level_of signal.take_profit
        ok (entered side price (o.mul r.cash (size_frac signal.size)) sl tp r))
      else ok r

  -- 3) the action, without a position and with one
  unfoldable pub apply : Option (Position A) → A → Signal A → Run A W → Result PyError (Run A W)
  apply none price signal r =
      if str_eq signal.action "OPEN_LONG"
      then open_run long price signal r
      else if str_eq signal.action "OPEN_SHORT"
      then open_run short price signal r
      else ok r
  apply (some pos) price signal r =
      if str_eq signal.action "CLOSE" then close_run pos price signal_close r else ok r

  unfoldable pub close_last : Option (Position A) → A → Run A W → Result PyError (Run A W)
  unfolding close_run
  close_last none price r = ok r
  close_last (some pos) price r = do
    r' ← close_run pos price force_close r
    ok (record r' { equity_curve = set_last r'.equity_curve r'.cash })

module _ {A W : Type 0} ⦃o : FloatOps A⦄ where
  -- 4) the value after the candle
  unfoldable pub value : A → Run A W → Result PyError (Run A W)
  unfolding mtm
  value price r = do
    equity ← mtm r.position r.cash price
    ok (record r { equity_curve = r.equity_curve ++ equity ∷ [] })

  unfoldable pub outcome : MathOps A → A → Run A W → Result PyError (Outcome A)
  outcome m initial_usdt r = do
    s ← sharpe m r.equity_curve
    ok (record {
      sharpe = s;
      max_drawdown = max_drawdown r.equity_curve;
      total_return = total_return r.equity_curve initial_usdt;
      win_rate = win_rate (map (λ t. t.pnl_usdt) r.trades);
      n_trades = length r.trades;
      final_equity = last initial_usdt r.equity_curve;
      equity_curve = r.equity_curve;
      trades = r.trades;
    })

module _ {A W : Type 0} ⦃o : FloatOps A⦄ (tick_fn : Tick A W) (fee_bps : A) where
  -- 2) the strategy's signal for a window
  unfoldable pub ask : List (Candle A) → Run A W → Signal A × Run A W
  ask window r =
      let (s, w) = tick_fn window r.position r.world in (signal_of s, record r { world = w })

  unfoldable pub candle_step : List (Candle A) → Candle A → Run A W → Result PyError (Run A W)
  unfolding check_levels apply value
  candle_step window candle r = do
    r₁ ← check_levels fee_bps r.position candle r
    let asked = ask window r₁
    r₂ ← apply fee_bps asked.1.position candle.close_price asked.0 asked.1
    value candle.close_price r₂

  -- The candles from index `i` on.
  unfoldable pub replay : List (Candle A) → ℕ → List (Candle A) → Run A W → Result PyError (Run A W)
  unfolding candle_step
  replay candles i [] r = ok r
  replay candles i (c ∷ cs) r = do
    r' ← candle_step (drop (i - window_lookback) (take (i + 1) candles)) c r
    replay candles (i + 1) cs r'

  -- The run over enough candles.
  unfoldable pub full_run : MathOps A → List (Candle A) → A → W → Result PyError (Outcome A)
  unfolding replay close_last outcome
  full_run m candles initial_usdt w = do
    r ← replay candles warmup (drop warmup candles) (started initial_usdt w)
    r' ← close_last fee_bps r.position (last_close initial_usdt candles) r
    outcome m initial_usdt r'

  unfoldable pub run : MathOps A → List (Candle A) → A → W → Result PyError (Outcome A)
  run m candles initial_usdt w =
      if leb (length candles) warmup
      then ok (record {
        sharpe = o.lit 0;
        max_drawdown = o.lit 0;
        total_return = o.lit 0;
        win_rate = o.lit 0;
        n_trades = 0;
        final_equity = initial_usdt;
        equity_curve = initial_usdt ∷ [];
        trades = [];
      })
      else full_run m candles initial_usdt w
