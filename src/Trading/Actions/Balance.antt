-- ===== src/Trading/Actions/Balance.antt =====
-- app/engine.py: what `_execute_action` does to the ledger of the run.
use mathlib.Core.Bool.{true≢false}
use artic_trader.Prelude.{◌≡◌, ◌≢◌, refl, sym, ap, ◌∙◌, false, none, some, if◌then◌else◌}
use artic_trader.Prelude.Exec.{Result, ok, err, Keeps, keeps_rules, Keeps-if, Keeps-pure}
use artic_trader.Prelude.Triples.{
  Triple-end, Keeps→Triple, Triple, Triple-lift, Triple-if, Triple-bind,
}
use artic_trader.Trading.Float.{FloatOps, PyError}
use artic_trader.Trading.Paper.{
  PositionSide, long, short, flat, is_flat, unrealized_pnl, open_side, close,
}
use artic_trader.Trading.Session.{
  Action, Reason, trade_opened, trade_closed, logged_open, logged_close, close_requested, line,
  Engine, Session,
}
use artic_trader.Trading.Actions.{
  settle, take_action, pnl_bps, or_zero, or_one, has_agent, is_live, is_dynamic, Step, send, update,
  skip, when, enter, opened, close_out, execute_open, execute_close, execute_action,
  execute_live_order, place_order, order_amount,
}
use artic_trader.Trading.Actions.Ledger.{
  Book, Holds, At, IsBalanced, send-IsBalanced, update-IsBalanced, flat_book, balanced, log_open,
  send_aside, when_aside, then_aside, closing,
}

-- An opening is balanced from a flat position, and the other actions are from any.
abbrev pub IsSafe : Action → PositionSide → Type 0
IsSafe Action.open_long side = side ≡ flat
IsSafe Action.open_short side = side ≡ flat
IsSafe _ side = Unit {0}

module _ {A W : Type 0} ⦃o : FloatOps A⦄ where
  place_order-IsBalanced :
      (side : PositionSide) (price : A) (e : Engine A) (r : Result PyError A)
      → Keeps (IsBalanced {W = W}) (place_order side price e r)
  unfolding place_order
  place_order-IsBalanced side price e (err _) = send-IsBalanced (line "error") tt
  place_order-IsBalanced side price e (ok amount) = search (keeps_rules, send-IsBalanced) depth 24

  pub execute_live_order-IsBalanced :
      (side : PositionSide) (price : A) → Keeps (IsBalanced {W = W}) (execute_live_order side price)
  unfolding execute_live_order
  execute_live_order-IsBalanced side price = record {
    at = λ s h. (place_order-IsBalanced side price s.engine (order_amount s.engine price)).at s h;
  }

  opened_lem :
      {R : Session A W → Type 0} (side : PositionSide) (price : A)
      → side ≢ flat
      → Triple (At none none) (update (opened side price)) (λ a. At none (some (side, price))) R
  unfolding open_side
  opened_lem side price ne = record {
    at = λ s h. record { ledger = h.ledger; position = (ne, refl, refl) };
  }

  still :
      (m : Step A W Unit) → Keeps IsBalanced m → Triple IsBalanced m (λ a. IsBalanced) IsBalanced
  still m k = Keeps→Triple m k (λ s h. h)

  logged_open_lem :
      (side : PositionSide) (price : A)
      → Triple
          (At {W = W} none (some (side, price)))
          (send (logged_open side price))
          (λ a. IsBalanced)
          IsBalanced
  logged_open_lem side price = record { at = log_open side price }

  enter-IsBalanced :
      (side : PositionSide) (price : A) (e : Engine A)
      → side ≢ flat
      → Triple (At {W = W} none none) (enter side price e) (λ a. IsBalanced) IsBalanced
  unfolding enter
  enter-IsBalanced side price e ne =
      then_aside _ _ (when_aside (is_dynamic e.tp_sl_mode) _ (send_aside (line "action") tt)) (
        then_aside _ _ (opened_lem side price ne) (
          then_aside _ _ (send_aside (line "action") tt) (
            then_aside _ _
              (when_aside (has_agent e) _
                (send_aside (trade_opened side price e.amount_usdt e.leverage) tt))
              (Triple-bind _ (λ _. when (is_live e) (execute_live_order side price))
                (logged_open_lem side price)
                (λ _. still _ (
                  Keeps-if (is_live e) _ _ (execute_live_order-IsBalanced side price)
                    (Keeps-pure tt)))))))

  pub execute_open-IsBalanced :
      (side : PositionSide) (price : A) (s : Session A W)
      → side ≢ flat
      → s.engine.position.side ≡ flat
      → IsBalanced s
      → IsBalanced (execute_open side price s).1
  unfolding execute_open
  execute_open-IsBalanced side price s ne e h =
      Triple-end IsBalanced (enter side price s.engine) (enter-IsBalanced side price s.engine ne) s
        (flat_book s h e)

  -- The closing that is logged is that of the position on hand.
  logged_close_lem :
      {R : Session A W → Type 0} (b : Book A) (e : Engine A) (price bps : A)
      → Holds e.position b
      → is_flat e.position.side ≡ false
      → Triple
          (At b b)
          (send (logged_close e.position.side e.position.entry_price price bps))
          (λ a. At none b)
          R
  logged_close_lem none e price bps h ne = record {
    at = λ s k. absurd (true≢false (sym (ap is_flat h) ∙ ne));
  }
  logged_close_lem (some (side, entry)) e price bps h ne = record {
    at = λ s k. record {
      ledger = rw (h.1, h.2) (closing side entry price bps k.ledger);
      position = k.position;
    };
  }

  closed_lem :
      {b : Book A} {R : Session A W → Type 0}
      → Triple
          (At none b)
          (update (λ e. record e { position = close e.position }))
          (λ a. IsBalanced)
          R
  unfolding close
  closed_lem = record {
    at = λ s h. record { book = none; at = record { ledger = h.ledger; position = refl } };
  }

  close_out-IsBalanced :
      (b : Book A) (e : Engine A) (price : A) (reason : Reason) (pnl bps : A)
      → Holds e.position b
      → is_flat e.position.side ≡ false
      → Triple (At {W = W} b b) (close_out e price reason pnl bps) (λ a. IsBalanced) IsBalanced
  unfolding close_out
  close_out-IsBalanced b e price reason pnl bps h ne =
      then_aside _ _ (send_aside (line "action") tt) (
        then_aside _ _ (send_aside (line "action") tt) (
          then_aside _ _
            (when_aside (has_agent e) _ (
              send_aside
                (trade_closed e.position.side e.position.entry_price price pnl e.position.size_usdt
                  e.position.leverage reason)
                tt))
            (then_aside _ _ (logged_close_lem b e price bps h ne) (
              then_aside _ _
                (when_aside (is_live e) _ (
                  then_aside _ _
                    (then_aside _ _ (send_aside close_requested tt) (send_aside (line "warn") tt))
                    (send_aside (line "action") tt)))
                closed_lem))))

  settle-IsBalanced :
      (b : Book A) (e : Engine A) (price : A) (reason : Reason)
      → Holds e.position b
      → is_flat e.position.side ≡ false
      → Triple (At {W = W} b b) (settle e price reason) (λ a. IsBalanced) IsBalanced
  unfolding settle
  settle-IsBalanced b e price reason h ne =
      Triple-bind _ _ (Triple-lift (unrealized_pnl e.position price) balanced) (λ pnl.
        Triple-bind _ _
          (Triple-lift
            (pnl_bps pnl (o.mul (or_zero e.position.size_usdt) (or_one e.position.leverage)))
            balanced)
          (λ bps. close_out-IsBalanced b e price reason pnl bps h ne))

  pub execute_close-IsBalanced :
      (price : A) (reason : Reason) → Keeps (IsBalanced {W = W}) (execute_close price reason)
  unfolding execute_close
  execute_close-IsBalanced price reason = record {
    at = λ s h.
        Triple-end IsBalanced
          (if is_flat s.engine.position.side then skip else settle s.engine price reason)
          (Triple-if _ _ _ (λ _. record { at = balanced })
            (settle-IsBalanced h.book s.engine price reason h.at.position))
          s h.at;
  }

  take_action-IsBalanced :
      (action : Action) (price : A) (reason : Reason) (s : Session A W)
      → IsSafe action s.engine.position.side
      → IsBalanced s
      → IsBalanced (take_action action price reason s).1
  take_action-IsBalanced Action.open_long price reason s e h =
      execute_open-IsBalanced long price s (λ q. true≢false (sym (ap is_flat q))) e h
  take_action-IsBalanced Action.open_short price reason s e h =
      execute_open-IsBalanced short price s (λ q. true≢false (sym (ap is_flat q))) e h
  take_action-IsBalanced Action.close price reason s e h =
      (execute_close-IsBalanced price reason).at s h
  take_action-IsBalanced Action.hold price reason s e h = h

  -- From a session whose log of on-chain trades alternates and leaves open just the position on hand,
  -- an action leads to another such session, an opening if the position was flat; this holds where
  -- the action raises too.
  pub execute_action-IsBalanced :
      (action : Action) (price : A) (reason : Reason) (s : Session A W)
      → IsSafe action s.engine.position.side
      → IsBalanced s
      → IsBalanced (execute_action action price reason s).1
  unfolding execute_action
  execute_action-IsBalanced action price reason s e h =
      take_action-IsBalanced action price reason
        (record s {
          engine = record s.engine { last_action = some action; last_reason = some reason };
        })
        e
        ((update-IsBalanced (λ e. record e { last_action = some action; last_reason = some reason })
            (λ e. refl)).at
          s h)
