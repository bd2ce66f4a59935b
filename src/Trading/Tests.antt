-- ===== src/Trading/Tests.antt =====
-- Runs of app/engine.py: the price falls from 100 by one with each read, and the strategy is for a
-- long position until it is for a short one.
use mathlib.Core.Bool.{true≢false}
use artic_trader.Prelude.{◌∷◌, ◌≡◌, ◌≢◌, sym, ap, ℕ, ◌-◌, ◌+◌, true, false, refl, none, some, []}
use artic_trader.Prelude.Exec.{ok, err}
use artic_trader.Trading.Whole.{whole}
use artic_trader.Trading.Paper.{
  long, Trigger, check_tp_sl, is_flat, unrealized_pnl, pnl_of, move, flat, empty,
}
use artic_trader.Trading.Session.{
  signal_reversed, logged_open, Action, fixed, dynamic, Engine, Session,
}
use artic_trader.Trading.Actions.{execute_action, opened}
use artic_trader.Trading.Actions.Ledger.{At, opening, IsBalanced, nothing}
use artic_trader.Signals.Dispatch.{Library}
use artic_trader.Signals.Engine.{with_signals}
use artic_trader.Trading.Loop.{stop, halt, close_at_stop, Feed, keep, trading_loop, refresh_candles}
use artic_trader.Prelude.Triples.{Post}
use artic_trader.Trading.Actions.Closing.{IsEmpty, noted, execute_action_ends}
use artic_trader.Trading.Actions.Inverted.{opened-check_tp_sl}
use artic_trader.Trading.Compute.{stop_distance, compute_atr}
use artic_trader.Trading.Loop.Stopping.{stop-At}
use artic_trader.Trading.Loop.Alternation.{trading_loop-IsBalanced}
use artic_trader.Trading.Float.{outside_error}
use artic_trader.Trading.Start.{StartRequest, Setup, start}
use artic_trader.Trading.Start.Begun.{IsBegun, start-IsBegun}

abbrev feed : Feed ℕ ℕ
feed = record {
  listener_price = λ symbol w. none;
  get_price_with_retry = λ symbol w. (ok (some (100 - w)), w + 1);
  get_price = λ symbol w. (ok (some (100 - w)), w + 1);
  monotonic = λ w. w;
  supervisor_check = λ e p u q w. (ok keep, w);
  get_ohlcv_candles = λ e n w. (ok [], w);
  compute_strategy_signal = λ plan history candles w. (ok 7, w);
}

abbrev fresh : Engine ℕ
fresh = record {
  running = true;
  symbol = "BTCUSDT";
  last_price = none;
  position = empty;
  last_action = none;
  last_reason = none;
  amount_usdt = some 50;
  leverage = some 2;
  tp_pct = some 1;
  sl_pct = some 1;
  strategy_plan = record { strategy = "momentum"; lookback = 10; threshold = 5; max_loss_pct = 1 };
  price_history = [];
  candle_cache = [];
  last_candle_refresh_tick = 0;
  live_mode = false;
  trading_client = false;
  agent_id = "";
  onchain_enabled = false;
  tp_sl_mode = fixed;
  supervisor_interval_seconds = 60;
  last_supervisor_time = 0;
  tick_count = 0;
}

abbrev session : Session ℕ ℕ
session = record { engine = fresh; sent = []; world = 0 }

session-IsBalanced : IsBalanced session
session-IsBalanced = record { book = none; at = record { ledger = nothing; position = refl } }

trading_loop-IsBalanced_example : IsBalanced (trading_loop ⦃o = whole⦄ feed 3 session)
trading_loop-IsBalanced_example =
    trading_loop-IsBalanced ⦃o = whole⦄ feed 3 session session-IsBalanced

-- The same engine with a long position that it has logged.
abbrev held : Session ℕ ℕ
held = record session {
  engine = record fresh {
    position = record empty {
      side = long;
      entry_price = some 90;
      size_usdt = some 50;
      leverage = some 2;
    };
  };
  sent = logged_open long 90 ∷ [];
}

long_open : long ≢ flat
long_open e = true≢false (sym (ap is_flat e))

held-At : At (some (long, 90)) (some (long, 90)) held
held-At = record { ledger = opening long 90 nothing; position = (long_open, refl, refl) }

stop_returns : (stop ⦃o = whole⦄ feed true held).0 ≡ ok tt
unfolding stop halt close_at_stop unrealized_pnl pnl_of move
stop_returns = refl

stop-At_example : At (some (long, 90)) none (stop ⦃o = whole⦄ feed true held).1
stop-At_example = stop-At ⦃o = whole⦄ feed (some (long, 90)) held held-At refl refl stop_returns

abbrev library : Library ℕ
library = record {
  math = record { sqrt = λ x. x; square = λ x. ok x };
  root = λ x. x;
  lower_strip = λ s. s;
}

abbrev setup : Setup ℕ ℕ
setup = record {
  strip = λ s. s;
  upper = λ s. s;
  lower = λ s. s;
  after_colon = λ s. s;
  getenv = λ name. none;
  get_market_summary = λ symbol w. (ok none, w + 1);
  get_full_analysis = λ r e m w. (err outside_error, w + 1);
  start_listener = λ url symbol w. (ok tt, w);
}

abbrev request : StartRequest ℕ
request = record {
  symbol = "ETHUSDT";
  amount_usdt = 50;
  leverage = 2;
  tp_pct = none;
  sl_pct = none;
  risk_profile = "moderate";
  live_mode = false;
  tp_sl_mode = none;
  supervisor_interval_seconds = some 5;
  indicators = [];
}

-- An engine that has been stopped, after prices of another symbol.
abbrev stopped_session : Session ℕ ℕ
stopped_session = record {
  engine = record fresh { running = false; price_history = 7 ∷ 8 ∷ []; tick_count = 2 };
  sent = [];
  world = 0;
}

starts : (start ⦃o = whole⦄ feed setup request stopped_session).1.engine.running ≡ true
unfolding start refresh_candles
starts = refl

start-IsBegun_example :
    IsBegun ⦃o = whole⦄ request stopped_session.engine
      (start ⦃o = whole⦄ feed setup request stopped_session).1.engine
start-IsBegun_example = start-IsBegun ⦃o = whole⦄ feed setup request stopped_session refl starts

starts_mixed :
    (start ⦃o = whole⦄ feed setup request stopped_session).1.engine.price_history ≡ 7 ∷ 8 ∷ 100 ∷ []
unfolding start refresh_candles
starts_mixed = refl

execute_action_ends_example :
    Post
      (λ a s'. IsEmpty s')
      (λ s'. s' ≡ noted ⦃o = whole⦄ signal_reversed held)
      (execute_action ⦃o = whole⦄ Action.close 100 signal_reversed held)
execute_action_ends_example = execute_action_ends ⦃o = whole⦄ 100 signal_reversed held refl

opened-check_tp_sl_example :
    (t : Trigger) × (check_tp_sl ⦃o = whole⦄
        (opened ⦃o = whole⦄ long 100 (record fresh { tp_sl_mode = dynamic })).position
        100
      ≡ ok (some t))
unfolding stop_distance compute_atr
opened-check_tp_sl_example =
    opened-check_tp_sl ⦃o = whole⦄ (record fresh { tp_sl_mode = dynamic }) 100 100 refl (λ e. refl)

-- The loop with the signals of the strategies in the place of its parameter.
with_signals-IsBalanced :
    IsBalanced (trading_loop ⦃o = whole⦄ (with_signals ⦃o = whole⦄ library feed) 3 session)
with_signals-IsBalanced =
    trading_loop-IsBalanced ⦃o = whole⦄ (with_signals ⦃o = whole⦄ library feed) 3 session
      session-IsBalanced
