-- ===== src/Trading/Session.antt =====
-- app/engine.py: the state of `TradingEngine`, and what it sends out; app/schemas.py: its records.
use artic_trader.Prelude.{ℕ, String, Bool, Option, List}
use artic_trader.Trading.Paper.{PositionSide, PaperPosition, Trigger}

pub data Action : Type 0 where
  open_long open_short hold close : Action

pub record Candle (A : Type 0) : Type 0 where
  pub open_price : A
  pub high : A
  pub low : A
  pub close_price : A
  pub volume : A

pub record StrategyPlan (A : Type 0) : Type 0 where
  pub strategy : String
  pub lookback : ℕ
  pub threshold : A
  pub max_loss_pct : A

pub data TpSlMode : Type 0 where
  fixed dynamic : TpSlMode

-- Why an action was taken, without the formatting.
pub data Reason : Type 0 where
  triggered : Trigger → Reason
  supervisor signal_reversed holding signal_long signal_short signal_weak : Reason

-- What the engine sends out: reports to the hub, on-chain trade logs, orders, and log lines by level.
pub data Event (A : Type 0) : Type 0 where
  -- `report_trade` of an opened position, and of a closed one
  trade_opened : PositionSide → A → Option A → Option ℕ → Event A
  trade_closed : PositionSide → Option A → A → A → Option A → Option ℕ → Reason → Event A
  -- `_log_trade_onchain`: the side, the entry and exit prices, the basis points
  logged_open : PositionSide → A → Event A
  logged_close : PositionSide → Option A → A → A → Event A
  -- `place_order` and `close_position` of the trading client
  order_placed : PositionSide → A → A → Option A → Option A → Event A
  close_requested : Event A
  decision_logged decision_reported status_reported logs_flushed : Event A
  line : String → Event A

pub record Engine (A : Type 0) : Type 0 where
  pub running : Bool
  pub symbol : String
  pub last_price : Option A
  pub position : PaperPosition A
  pub last_action : Option Action
  pub last_reason : Option Reason
  pub amount_usdt : Option A
  pub leverage : Option ℕ
  pub tp_pct : Option A
  pub sl_pct : Option A
  pub strategy_plan : StrategyPlan A
  pub price_history : List A
  pub candle_cache : List (Candle A)
  pub last_candle_refresh_tick : ℕ
  pub live_mode : Bool
  pub trading_client : Bool
  pub agent_id : String
  pub onchain_enabled : Bool
  pub tp_sl_mode : TpSlMode
  pub supervisor_interval_seconds : A
  pub last_supervisor_time : A
  -- the loop's local count of ticks
  pub tick_count : ℕ

-- The engine, what it has sent, and the world outside.
pub record Session (A W : Type 0) : Type 0 where
  pub engine : Engine A
  pub sent : List (Event A)
  pub world : W
