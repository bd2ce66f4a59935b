-- ===== src/Trading/Loop.antt =====
-- app/engine.py: `_run_supervisor_check`, one round of `_trading_loop`, and `stop`.
pub mod Steps
pub mod Alternation
pub mod Stopping
use artic_trader.Prelude.{
  ℕ, zero, suc, ◌+◌, ◌-◌, ◌*◌, ◌%◌, ◌==◌, leb, ltb, Bool, false, ◌||◌, ◌&&◌, not, Option, none,
  some, List, [], ◌∷◌, ◌++◌, String, length, drop, if◌then◌else◌,
}
use artic_trader.Prelude.Exec.{Result, ok, err, gets, ◌>>=◌, ◌>>◌}
use artic_trader.Prelude.Results.{lift}
use artic_trader.Trading.Float.{FloatOps, PyError, overflow_error, truthy, number}
use artic_trader.Trading.Paper.{
  Trigger, is_flat, lever, close, unrealized_pnl, check_tp_sl, update_dynamic_tp_sl,
}
use artic_trader.Trading.Session.{
  Action, Candle, StrategyPlan, Reason, triggered, supervisor, decision_logged, decision_reported,
  status_reported, logs_flushed, close_requested, line, Engine, Session,
}
use artic_trader.Trading.Compute.{compute_dynamic_tp_sl, decide_action}
use artic_trader.Trading.Actions.{
  Step, send, update, skip, when, has_agent, is_live, execute_action, is_dynamic,
}

-- The answer of the model: KEEP, CLOSE or ADJUST_TP_SL.
pub data Verdict : Type 0 where
  keep close_now adjust : Verdict

-- The calls outside the engine. The price listener may have no fresh price; every call may raise.
pub record Feed (A W : Type 0) : Type 0 where
  pub listener_price : String → W → Option A
  pub get_price_with_retry : String → W → Result PyError (Option A) × W
  pub get_price : String → W → Result PyError (Option A) × W
  pub monotonic : W → A
  pub supervisor_check : Engine A → A → A → A → W → Result PyError Verdict × W
  pub get_ohlcv_candles : Engine A → ℕ → W → Result PyError (List (Candle A)) × W
  pub compute_strategy_signal : StrategyPlan A → List A → List (Candle A) → W → Result PyError A × W

-- `deque(maxlen=200).append`
abbrev pub history_limit : ℕ
history_limit = 200

abbrev pub append_history : {A : Type 0} → List A → A → List A
append_history xs x =
    let ys = xs ++ x ∷ [] in
    if ltb history_limit (length ys) then drop (length ys - history_limit) ys else ys

module _ {A W : Type 0} where
  abbrev pub engine : Step A W (Engine A)
  engine = gets (λ s. s.engine)

  abbrev pub outside : {B : Type 0} → (W → Result PyError B × W) → Step A W B
  outside call s = let (r, w) = call s.world in (r, record s { world = w })

module _ {A : Type 0} where
  -- An exception of the fetch is swallowed, and an empty answer changes nothing.
  abbrev pub keep_candles : Result PyError (List (Candle A)) → Engine A → Engine A
  keep_candles (ok (c ∷ cs)) e = record e { candle_cache = c ∷ cs }
  keep_candles _ e = e

module _ {A : Type 0} ⦃o : FloatOps A⦄ where
  -- (u_pnl / notional) if notional else 0.0
  abbrev pub pnl_pct : A → A → A
  pnl_pct u_pnl notional = if truthy notional then o.quot u_pnl notional else o.lit 0

  -- The basis points are computed outside the `try`, so a failing conversion raises.
  abbrev pub check_bps : A → Result PyError Unit
  check_bps pct = elim (o.trunc (o.mul pct (o.lit 10000))) [
    | none ↦ err overflow_error
    | some _ ↦ ok tt
  ]

  -- self._last_supervisor_time == 0 or now - self._last_supervisor_time >= interval
  abbrev pub is_due : Engine A → A → Bool
  is_due e now =
      o.eq e.last_supervisor_time (o.lit 0)
      || o.le e.supervisor_interval_seconds (o.sub now e.last_supervisor_time)

module _ {A W : Type 0} ⦃o : FloatOps A⦄ where
  unfoldable pub adjust_levels : Step A W Unit
  unfolding update_dynamic_tp_sl
  adjust_levels = do
    e ← engine
    entry ← lift (number e.position.entry_price)
    let levels = compute_dynamic_tp_sl e entry e.position.side
    update (λ e. record e { position = update_dynamic_tp_sl levels.0 levels.1 e.position })
    send (line "supervisor")

  unfoldable pub execute_decision : Action → A → Reason → Step A W Unit
  execute_decision Action.hold current_price reason = skip
  execute_decision action current_price reason = execute_action action current_price reason

  -- Both `_print_tick_log` and `_build_status_dict` value an open position.
  abbrev value_position : A → Step A W Unit
  value_position current_price = do
    e ← engine
    if is_flat e.position.side
        then skip
        else (do lift (unrealized_pnl e.position current_price); skip)

  unfoldable pub report_round : A → Step A W Unit
  report_round current_price = do
    value_position current_price
    send (line "tick")
    e ← engine
    when (has_agent e) (do
      when (truthy current_price) (value_position current_price)
      send status_reported
      when (e.tick_count % 10 == 0) (send logs_flushed))

  -- The loop's `except` logs the exception, and the loop goes on from what the round left.
  unfoldable pub act_on_signal : Engine A → A → A → Step A W Unit
  act_on_signal e current_price signal = do
    let decided = decide_action e signal
    execute_decision decided.0 current_price decided.1
    report_round current_price

  abbrev pub caught : Result PyError Unit → Step A W Unit
  caught (ok _) = skip
  caught (err _) = send (line "error")

module _ {A W : Type 0} ⦃o : FloatOps A⦄ (f : Feed A W) where
  abbrev pub or_fetch : Option A → Step A W (Option A)
  or_fetch (some ws_price) s = (ok (some ws_price), s)
  or_fetch none s = outside (f.get_price_with_retry s.engine.symbol) s

  unfoldable pub get_current_price : Step A W (Option A)
  get_current_price s = or_fetch (f.listener_price s.engine.symbol s.world) s

  unfoldable pub refresh_candles : Step A W Unit
  refresh_candles s =
      let e = s.engine in
      let doubled : ℕ = e.strategy_plan.lookback * 2 in
      let (r, w) = f.get_ohlcv_candles e (if ltb 100 doubled then doubled else 100) s.world in
      (ok tt, record s { engine = keep_candles r e; world = w })

  unfoldable pub act_on : Verdict → A → Step A W Unit
  act_on keep current_price = skip
  act_on close_now current_price = execute_action Action.close current_price supervisor
  act_on adjust current_price = do e ← engine; when (is_dynamic e.tp_sl_mode) adjust_levels

  unfoldable pub run_supervisor_check : A → Step A W Unit
  run_supervisor_check current_price = do
    e ← engine
    if is_flat e.position.side then skip else (do
      u_pnl ← lift (unrealized_pnl e.position current_price)
      size_usdt ← lift (number e.position.size_usdt)
      leverage ← lift (number (lever e.position.leverage))
      let pct = pnl_pct u_pnl (o.mul size_usdt leverage)
      verdict ← outside (f.supervisor_check e current_price u_pnl pct)
      send (line "supervisor")
      when e.onchain_enabled (lift (check_bps pct) >> send decision_logged)
      when (has_agent e) (send decision_reported)
      act_on verdict current_price)

  unfoldable pub supervise : A → Step A W Unit
  supervise current_price = do
    now ← gets (λ s. f.monotonic s.world)
    e ← engine
    when (is_due e now) (
        update (λ e. record e { last_supervisor_time = now }) >> run_supervisor_check current_price)

  unfoldable pub refresh_if_old : Step A W Unit
  refresh_if_old = do
    e ← engine
    when (leb 300 (e.tick_count - e.last_candle_refresh_tick))
        (refresh_candles >> update (λ e. record e { last_candle_refresh_tick = e.tick_count }))

  -- From the candle refresh to the hub callbacks: the part of a round that looks for a signal.
  unfoldable pub follow_signal : A → Step A W Unit
  follow_signal current_price = do
    refresh_if_old
    e ← engine
    signal ← outside (f.compute_strategy_signal e.strategy_plan e.price_history e.candle_cache)
    act_on_signal e current_price signal

  -- A position that the supervisor has closed ends the round.
  unfoldable pub unless_closed : A → Step A W Unit
  unless_closed current_price = do
    e ← engine
    if is_flat e.position.side then skip else follow_signal current_price

  unfoldable pub on_trigger : Option Trigger → A → Step A W Unit
  on_trigger (some t) current_price = do
    send (line "sl_tp")
    execute_action Action.close current_price (triggered t)
  on_trigger none current_price = do supervise current_price; unless_closed current_price

  unfoldable pub in_position : A → Step A W Unit
  in_position current_price = do
    e ← engine
    hit ← lift (check_tp_sl e.position current_price)
    on_trigger hit current_price

  unfoldable pub at_price : A → Step A W Unit
  at_price current_price = do
    update (λ e. record e {
      last_price = some current_price;
      price_history = append_history e.price_history current_price;
    })
    e ← engine
    if is_flat e.position.side then follow_signal current_price else in_position current_price

  abbrev pub at_quote : Option A → Step A W Unit
  at_quote none = send (line "error")
  at_quote (some current_price) = at_price current_price

  -- The body of the loop's `try`.
  unfoldable pub round : Step A W Unit
  round = do
    update (λ e. record e { tick_count = e.tick_count + 1 })
    quote ← get_current_price
    at_quote quote

  unfoldable pub tick : Session A W → Session A W
  tick s = let (r, s') = round s in (caught r s').1

  -- `while self.running`, for a number of rounds
  unfoldable pub trading_loop : ℕ → Session A W → Session A W
  trading_loop zero s = s
  trading_loop (suc rounds) s =
      let rest = trading_loop rounds (tick s) in if s.engine.running then rest else s

  abbrev pub report_final : Engine A → Option A → Step A W Unit
  report_final e none = skip
  report_final e (some price) =
      when (truthy price)
        (lift (unrealized_pnl e.position price) >> send (line "stop") >> send (line "stop"))

  -- What `stop` does with an open position.
  unfoldable pub close_at_stop : Engine A → Step A W Unit
  unfolding close
  close_at_stop e = do
    final_price ← outside (f.get_price e.symbol)
    report_final e final_price
    when (is_live e) (send close_requested >> send (line "warn") >> send (line "stop"))
    update (λ e. record e { position = close e.position })

  unfoldable pub halt : Bool → Engine A → Step A W Unit
  unfolding close_at_stop
  halt close_position e = do
    send (line "stop")
    update (λ e. record e { running = false })
    when (close_position && not (is_flat e.position.side)) (close_at_stop e)
    send (line "stop")

  -- The rounds that are still under way when `stop` is called are part of the run before it.
  unfoldable pub stop : Bool → Step A W Unit
  unfolding halt
  stop close_position = do e ← engine; if e.running then halt close_position e else skip
