-- ===== src/Trading/Actions.antt =====
-- app/engine.py: `_execute_action` and `_execute_live_order`. Log lines are sent by their level.
pub mod Ledger
pub mod Balance
pub mod Closing
pub mod Inverted
use artic_trader.Prelude.{
  ℕ, zero, suc, str_eq, Bool, true, false, not, ◌&&◌, Option, none, some, [], ◌∷◌, ◌++◌,
  if◌then◌else◌,
}
use artic_trader.Prelude.Exec.{Result, ok, err, Exec, pure, gets, ◌>>=◌, ◌>>◌}
use artic_trader.Prelude.Results.{lift}
use artic_trader.Trading.Float.{FloatOps, PyError, overflow_error, type_error, truthy}
use artic_trader.Trading.Paper.{
  PositionSide, long, short, is_flat, open_side, close, lever, unrealized_pnl,
}
use artic_trader.Trading.Compute.{compute_dynamic_tp_sl, compute_amount}
use artic_trader.Trading.Session.{
  Action, dynamic, fixed, TpSlMode, Reason, Event, trade_opened, trade_closed, logged_open,
  logged_close, order_placed, close_requested, line, Engine, Session,
}

abbrev pub Step : Type 0 → Type 0 → Type 0 → Type 0
Step A W B = Exec (Session A W) PyError B

module _ {A W : Type 0} where
  -- A report, an order or a log line goes out.
  abbrev pub send : Event A → Step A W Unit
  send ev s = (ok tt, record s { sent = s.sent ++ ev ∷ [] })

  abbrev pub update : (Engine A → Engine A) → Step A W Unit
  update f s = (ok tt, record s { engine = f s.engine })

  abbrev pub skip : Step A W Unit
  skip = pure tt

  abbrev pub when : Bool → Step A W Unit → Step A W Unit
  when b m = if b then m else skip

-- if self._agent_id:
abbrev pub has_agent : {A : Type 0} → Engine A → Bool
has_agent e = not (str_eq e.agent_id "")

-- if self._live_mode and self._trading_client
abbrev pub is_live : {A : Type 0} → Engine A → Bool
is_live e = e.live_mode && e.trading_client

abbrev pub is_dynamic : TpSlMode → Bool
is_dynamic dynamic = true
is_dynamic fixed = false

module _ {A : Type 0} ⦃o : FloatOps A⦄ where
  -- `x or y` for numbers that may be missing
  abbrev pub or_zero : Option A → A
  or_zero none = o.lit 0
  or_zero (some x) = x

  abbrev pub or_one : Option ℕ → A
  or_one none = o.lit 1
  or_one (some zero) = o.lit 1
  or_one (some (suc n)) = o.lit (suc n)

  -- int((pnl / notional) * 10000) if notional else 0
  unfoldable pub pnl_bps : A → A → Result PyError A
  pnl_bps pnl notional =
      if truthy notional
      then elim (o.trunc (o.mul (o.quot pnl notional) (o.lit 10000))) [
        | none ↦ err overflow_error
        | some n ↦ ok n
      ]
      else ok (o.lit 0)

  -- The stop-loss and take-profit prices of a live order.
  abbrev pub pct_levels : PositionSide → Option A → Option A → A → Option A × Option A
  pct_levels side (some tp) (some sl) entry =
      if truthy tp && truthy sl
      then (
        some (o.mul entry (o.add (o.lit 1) (elim side [ long ↦ tp | _ ↦ o.neg tp ]))),
        some (o.mul entry (o.sub (o.lit 1) (elim side [ long ↦ sl | _ ↦ o.neg sl ]))),
      )
      else (none, none)
  pct_levels side _ _ entry = (none, none)

  abbrev pub order_levels : Engine A → PositionSide → A → Option A × Option A
  order_levels e side price = elim e.tp_sl_mode [
    | dynamic ↦ elim e.position.tp_price [
      | none ↦ pct_levels side e.tp_pct e.sl_pct price
      | some tp ↦ elim e.position.sl_price [
        | none ↦ pct_levels side e.tp_pct e.sl_pct price
        | some sl ↦ (some tp, some sl)
      ]
    ]
    | fixed ↦ pct_levels side e.tp_pct e.sl_pct price
  ]

  unfoldable pub order_amount : Engine A → A → Result PyError A
  order_amount e price = elim e.amount_usdt [
    | none ↦ err type_error
    | some amount_usdt ↦ elim (lever e.leverage) [
      | none ↦ err type_error
      | some leverage ↦ compute_amount amount_usdt leverage price
    ]
  ]

  abbrev pub levels_of : Engine A → PositionSide → A → Option A × Option A
  levels_of e side price = elim e.tp_sl_mode [
    | fixed ↦ (none, none)
    | dynamic ↦ let (tp, sl) = compute_dynamic_tp_sl e price side in (some tp, some sl)
  ]

  abbrev pub opened : PositionSide → A → Engine A → Engine A
  opened side price e =
      let (tp, sl) = levels_of e side price in
      record e {
        position = open_side side price e.amount_usdt e.leverage e.tp_pct e.sl_pct tp sl e.position;
      }

module _ {A W : Type 0} ⦃o : FloatOps A⦄ where
  -- The stub's order never comes back with an identifier, so no AI log is uploaded.
  unfoldable pub place_order : PositionSide → A → Engine A → Result PyError A → Step A W Unit
  place_order side price e (err _) = send (line "error")
  place_order side price e (ok amount) = if o.le amount (o.lit 0) then send (line "error") else (do
    send (line "action")
    let levels = order_levels e side price
    send (order_placed side amount price levels.0 levels.1)
    send (line "warn")
    send (line "action")
    send (line "warn"))

  unfoldable pub execute_live_order : PositionSide → A → Step A W Unit
  unfolding place_order order_amount
  execute_live_order side price = do
    e ← gets (λ s. s.engine)
    place_order side price e (order_amount e price)

  -- The branches OPEN_LONG and OPEN_SHORT, which differ in the side alone.
  unfoldable pub enter : PositionSide → A → Engine A → Step A W Unit
  unfolding execute_live_order
  enter side price e = do
    when (is_dynamic e.tp_sl_mode) (send (line "action"))
    update (opened side price)
    send (line "action")
    when (has_agent e) (send (trade_opened side price e.amount_usdt e.leverage))
    send (logged_open side price)
    when (is_live e) (execute_live_order side price)

  unfoldable pub execute_open : PositionSide → A → Step A W Unit
  unfolding enter
  execute_open side price = do e ← gets (λ s. s.engine); enter side price e

  -- A closing, from its reports to the reset of the position.
  unfoldable pub close_out : Engine A → A → Reason → A → A → Step A W Unit
  unfolding close
  close_out e price reason pnl bps = do
    send (line "action")
    send (line "action")
    when (has_agent e) (
        send (
          trade_closed e.position.side e.position.entry_price price pnl e.position.size_usdt
            e.position.leverage reason))
    send (logged_close e.position.side e.position.entry_price price bps)
    when (is_live e) (send close_requested >> send (line "warn") >> send (line "action"))
    update (λ e. record e { position = close e.position })

  unfoldable pub settle : Engine A → A → Reason → Step A W Unit
  unfolding close_out
  settle e price reason = do
    pnl ← lift (unrealized_pnl e.position price)
    bps ← lift (pnl_bps pnl (o.mul (or_zero e.position.size_usdt) (or_one e.position.leverage)))
    close_out e price reason pnl bps

  unfoldable pub execute_close : A → Reason → Step A W Unit
  unfolding settle
  execute_close price reason = do
    e ← gets (λ s. s.engine)
    if is_flat e.position.side then skip else settle e price reason

  abbrev pub take_action : Action → A → Reason → Step A W Unit
  take_action Action.open_long price reason = execute_open long price
  take_action Action.open_short price reason = execute_open short price
  take_action Action.close price reason = execute_close price reason
  take_action Action.hold price reason = skip

  unfoldable pub execute_action : Action → A → Reason → Step A W Unit
  execute_action action price reason = do
    update (λ e. record e { last_action = some action; last_reason = some reason })
    take_action action price reason
