-- ===== src/Trading/Compute.antt =====
-- app/engine.py: what the engine computes: the ATR, the dynamic levels, the action and the order size.
use mathlib.Core.List.{foldl}
use artic_trader.Prelude.{
  ℕ, ◌+◌, ◌-◌, String, str_eq, Bool, Option, none, some, List, [], ◌∷◌, length, drop, ltb,
  if◌then◌else◌,
}
use artic_trader.Prelude.Exec.{Result, ok, err}
use artic_trader.Trading.Float.{FloatOps, PyError, py_div, py_max, py_abs}
use artic_trader.Trading.Paper.{PositionSide, long, short, flat}
use artic_trader.Trading.Session.{
  Action, Candle, Reason, signal_reversed, holding, signal_long, signal_short, signal_weak, Engine,
}

-- str(side).lower() of a member of the enumeration, whose `str` has the name of the class before it.
abbrev pub side_text : PositionSide → String
side_text long = "positionside.long"
side_text short = "positionside.short"
side_text flat = "positionside.flat"

-- The test of `_compute_dynamic_tp_sl` for a long position, which no side passes: both texts that it
-- compares with are "long".
unfoldable pub is_long : PositionSide → Bool
is_long side = str_eq (side_text side) "long"

module _ {A : Type 0} ⦃o : FloatOps A⦄ where
  true_range : A → Candle A → A
  true_range prev_close c =
      py_max (py_max (o.sub c.high c.low) (py_abs (o.sub c.high prev_close)))
        (py_abs (o.sub c.low prev_close))

  -- The true ranges of the candles behind the first.
  unfoldable pub true_ranges : List (Candle A) → List A
  unfolding true_range
  true_ranges [] = []
  true_ranges (c ∷ []) = []
  true_ranges (c ∷ d ∷ cs) = true_range c.close_price d ∷ true_ranges (d ∷ cs)

  unfoldable pub compute_atr : List (Candle A) → ℕ → Option A
  unfolding true_ranges
  compute_atr candles period =
      if ltb (length candles) (period + 1)
      then none
      else (let tr_list = true_ranges candles in
          if ltb (length tr_list) period
          then none
          else some (
              o.quot (foldl o.add (o.lit 0) (drop (length tr_list - period) tr_list))
                (o.lit period)))

  -- The distance of the stop: two ATRs, or 3% of the entry.
  unfoldable pub stop_distance : List (Candle A) → A → A
  stop_distance candles entry_price = elim (compute_atr candles 14) [
    | none ↦ o.mul entry_price (o.quot (o.lit 3) (o.lit 100))
    | some atr ↦
        if o.le atr (o.lit 0)
        then o.mul entry_price (o.quot (o.lit 3) (o.lit 100))
        else o.mul atr (o.lit 2)
  ]

  -- (tp_price, sl_price)
  unfoldable pub bracket : PositionSide → A → A → A × A
  unfolding is_long
  bracket side entry_price d =
      if is_long side
      then (o.add entry_price (o.mul d (o.lit 2)), o.sub entry_price d)
      else (o.sub entry_price (o.mul d (o.lit 2)), o.add entry_price d)

  unfoldable pub compute_dynamic_tp_sl : Engine A → A → PositionSide → A × A
  unfolding bracket stop_distance
  compute_dynamic_tp_sl e entry_price side =
      bracket side entry_price (stop_distance e.candle_cache entry_price)

  unfoldable pub decide : PositionSide → A → A → Action × Reason
  decide flat threshold signal =
      if o.lt threshold signal
      then (Action.open_long, signal_long)
      else if o.lt signal (o.neg threshold)
      then (Action.open_short, signal_short)
      else (Action.hold, signal_weak)
  decide long threshold signal =
      if o.lt signal (o.neg threshold)
      then (Action.close, signal_reversed)
      else (Action.hold, holding)
  decide short threshold signal =
      if o.lt threshold signal then (Action.close, signal_reversed) else (Action.hold, holding)

  unfoldable pub decide_action : Engine A → A → Action × Reason
  unfolding decide
  decide_action e signal = decide e.position.side e.strategy_plan.threshold signal

  -- app/executor/pancake_executor_stub.py: `compute_amount`
  unfoldable pub compute_amount : A → A → A → Result PyError A
  compute_amount amount_usdt leverage price =
      if o.lt (o.lit 0) price
      then elim (py_div (o.mul amount_usdt leverage) price) [
        | ok amount ↦ ok (o.round6 amount)
        | err e ↦ err e
      ]
      else ok (o.lit 0)
