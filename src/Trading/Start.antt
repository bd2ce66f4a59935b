-- ===== src/Trading/Start.antt =====
-- app/engine.py: `start`, with `_normalize_symbol` of app/market/market.py and the default plan of
-- app/llm/llm_planner.py. Of the analysis the plan is kept: the rest is only uploaded.
-- What only the calls outside read (the provider, the timeframe, the poll interval) is left out. A start is one step.
pub mod Stable
pub mod Begun
use artic_trader.Prelude.{
  ℕ, String, str_eq, Bool, true, false, Option, none, some, List, [], ◌∷◌, present, if◌then◌else◌,
}
use artic_trader.Prelude.Exec.{Result, ok, err, ◌>>=◌, ◌>>◌}
use artic_trader.Trading.Float.{FloatOps, PyError, truthy, py_max}
use artic_trader.Trading.Session.{StrategyPlan, TpSlMode, fixed, dynamic, line, Engine, Session}
use artic_trader.Trading.Actions.{Step, send, update, skip, when}
use artic_trader.Trading.Loop.{Feed, append_history, engine, outside, refresh_candles}

pub record StartRequest (A : Type 0) : Type 0 where
  pub symbol : String
  pub amount_usdt : A
  pub leverage : ℕ
  pub tp_pct : Option A
  pub sl_pct : Option A
  pub risk_profile : String
  pub live_mode : Bool
  pub tp_sl_mode : Option String
  pub supervisor_interval_seconds : Option A
  pub indicators : List String

pub record MarketSummary (A : Type 0) : Type 0 where
  pub percent_change_24h : Option A
  pub volume_24h : Option A

-- Text functions, the environment, and the calls that only a start makes.
pub record Setup (A W : Type 0) : Type 0 where
  pub strip : String → String
  pub upper : String → String
  pub lower : String → String
  -- s.split(":")[-1], which is `s` without a colon
  pub after_colon : String → String
  pub getenv : String → Option String
  pub get_market_summary : String → W → Result PyError (Option (MarketSummary A)) × W
  pub get_full_analysis :
      StartRequest A → Engine A → Option (MarketSummary A) → W → Result PyError (StrategyPlan A) × W
  pub start_listener : String → String → W → Result PyError Unit × W

module _ {A W : Type 0} (g : Setup A W) where
  unfoldable pub normalize_symbol : String → String
  normalize_symbol symbol = g.after_colon (g.upper (g.strip symbol))

  abbrev pub mode_of : Option String → TpSlMode
  mode_of none = fixed
  mode_of (some s) = if str_eq (g.lower s) "dynamic" then dynamic else fixed

module _ {A : Type 0} ⦃o : FloatOps A⦄ where
  abbrev pub momentum_plan : ℕ → A → A → StrategyPlan A
  momentum_plan lookback threshold max_loss_pct = record {
    strategy = "momentum";
    lookback = lookback;
    threshold = threshold;
    max_loss_pct = max_loss_pct;
  }

  -- The plan of a risk profile in lower case.
  unfoldable pub get_default_strategy : String → StrategyPlan A
  get_default_strategy profile =
      if str_eq profile "conservative"
      then momentum_plan 10 (o.quot (o.lit 3) (o.lit 10000)) (o.quot (o.lit 15) (o.lit 1000))
      else (if str_eq profile "aggressive"
          then momentum_plan 4 (o.quot (o.lit 5) (o.lit 100000)) (o.quot (o.lit 35) (o.lit 1000))
          else momentum_plan 6 (o.quot (o.lit 1) (o.lit 10000)) (o.quot (o.lit 2) (o.lit 100)))

  -- max(30.0, float(seconds or 60.0))
  abbrev pub interval_of : Option A → A
  interval_of none = py_max (o.lit 30) (o.lit 60)
  interval_of (some x) = py_max (o.lit 30) (if truthy x then x else o.lit 60)

module _ {A W : Type 0} ⦃o : FloatOps A⦄ (f : Feed A W) (g : Setup A W) (r : StartRequest A) where
  -- Live orders go to HashKey if there is a key for it, and else to the stub.
  abbrev pub with_client : Bool → Option String → Bool → Bool
  with_client true none client = true
  with_client true (some key) client = client
  with_client false key client = client

  unfoldable pub configured : Engine A → Engine A
  unfolding normalize_symbol
  configured e = record e {
    live_mode = r.live_mode;
    trading_client =
        with_client r.live_mode (present (g.getenv "HASHKEY_API_KEY")) e.trading_client;
    symbol = g.upper (normalize_symbol g r.symbol);
    amount_usdt = some r.amount_usdt;
    leverage = some r.leverage;
    tp_pct = r.tp_pct;
    sl_pct = r.sl_pct;
    tp_sl_mode = mode_of g (present r.tp_sl_mode);
    supervisor_interval_seconds = interval_of r.supervisor_interval_seconds;
    last_supervisor_time = o.lit 0;
  }

  abbrev pub line_if : Option A → Step A W Unit
  line_if none = skip
  line_if (some x) = send (line "init")

  abbrev pub tell : Option (MarketSummary A) → Step A W Unit
  tell none = skip
  tell (some m) = line_if m.percent_change_24h >> line_if m.volume_24h

  abbrev pub tell_indicators : List String → Step A W Unit
  tell_indicators [] = skip
  tell_indicators (i ∷ is) = send (line "llm")

  -- An exception of the planner gives the default plan.
  abbrev pub plan_of : Result PyError (StrategyPlan A) → Step A W Unit
  plan_of (ok plan) = update (λ e. record e { strategy_plan = plan })
  plan_of (err x) = do
    send (line "warn")
    update (λ e. record e { strategy_plan = get_default_strategy (g.lower r.risk_profile) })

  unfoldable pub analyse : Option (MarketSummary A) → Step A W Unit
  analyse summary s =
      let (result, w) = g.get_full_analysis r s.engine summary s.world in
      plan_of result (record s { world = w })

  unfoldable pub plan_session : Step A W Unit
  unfolding analyse
  plan_session = do
    send (line "init")
    e ← engine
    summary ← outside (g.get_market_summary e.symbol)
    tell summary
    send (line "llm")
    tell_indicators r.indicators
    analyse summary
    send (line "llm")
    send (line "llm")
    send (line "llm")

  -- The plan's stop-loss, if the request has none, which is logged.
  abbrev pub default_sl : Option A → Step A W Unit
  default_sl (some x) = skip
  default_sl none = do
    update (λ e. record e { sl_pct = some e.strategy_plan.max_loss_pct })
    send (line "llm")

  abbrev pub listen : Option String → Step A W Unit
  listen none = skip
  listen (some hub_url) = do
    e ← engine
    outside (g.start_listener hub_url e.symbol)
    send (line "init")

  unfoldable pub equip : Step A W Unit
  equip = do refresh_candles f; send (line "init"); listen (present (g.getenv "HUB_URL"))

  -- The loop counts its ticks from zero.
  abbrev pub launch : Step A W Unit
  launch = do update (λ e. record e { running = true; tick_count = 0 }); send (line "start")

  unfoldable pub with_price : Option A → Step A W Unit
  unfolding plan_session equip
  with_price none = send (line "error")
  with_price (some initial_price) = do
    update (λ e. record e {
      last_price = some initial_price;
      price_history = append_history e.price_history initial_price;
    })
    plan_session
    e ← engine
    default_sl e.sl_pct
    equip
    launch

  unfoldable pub begin : Step A W Unit
  unfolding configured with_price
  begin = do
    when r.live_mode (send (line "init"))
    update configured
    send (line "init")
    send (line "init")
    e ← engine
    initial_price ← outside (f.get_price_with_retry e.symbol)
    with_price initial_price

  unfoldable pub start : Step A W Unit
  unfolding begin
  start = do e ← engine; if e.running then send (line "warn") else begin
