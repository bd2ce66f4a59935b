-- ===== src/Trading/Paper.antt =====
-- app/executor/paper.py: `PaperPosition`, and the enumerations of app/schemas.py.
use artic_trader.Prelude.{ℕ, Bool, true, false, ◌&&◌, Option, none, some, if◌then◌else◌}
use artic_trader.Prelude.Exec.{Result, ok}
use artic_trader.Prelude.Results.{◌>>=◌}
use artic_trader.Trading.Float.{FloatOps, PyError, py_div, truthy, number}

pub data PositionSide : Type 0 where
  long short flat : PositionSide

-- self.side == PositionSide.FLAT
abbrev pub is_flat : PositionSide → Bool
is_flat flat = true
is_flat _ = false

pub record PaperPosition (A : Type 0) : Type 0 where
  pub side : PositionSide
  pub entry_price : Option A
  pub size_usdt : Option A
  pub leverage : Option ℕ
  pub tp_pct : Option A
  pub sl_pct : Option A
  pub tp_price : Option A
  pub sl_price : Option A

-- Which level a price has met: the reasons that `check_tp_sl` gives, without their formatting.
pub data Trigger : Type 0 where
  tp_price_hit sl_price_hit tp_pct_hit sl_pct_hit : Trigger

module _ {A : Type 0} where
  abbrev pub empty : PaperPosition A
  empty = record {
    side = flat;
    entry_price = none;
    size_usdt = none;
    leverage = none;
    tp_pct = none;
    sl_pct = none;
    tp_price = none;
    sl_price = none;
  }

  -- `open_long` and `open_short` differ in the side alone.
  unfoldable pub open_side :
      PositionSide
      → A
      → Option A
      → Option ℕ
      → Option A
      → Option A
      → Option A
      → Option A
      → PaperPosition A
      → PaperPosition A
  open_side side entry_price size_usdt leverage tp_pct sl_pct tp_price sl_price _ = record {
    side = side;
    entry_price = some entry_price;
    size_usdt = size_usdt;
    leverage = leverage;
    tp_pct = tp_pct;
    sl_pct = sl_pct;
    tp_price = tp_price;
    sl_price = sl_price;
  }

  unfoldable pub open_long :
      A
      → Option A
      → Option ℕ
      → Option A
      → Option A
      → Option A
      → Option A
      → PaperPosition A
      → PaperPosition A
  unfolding open_side
  open_long = open_side long

  unfoldable pub open_short :
      A
      → Option A
      → Option ℕ
      → Option A
      → Option A
      → Option A
      → Option A
      → PaperPosition A
      → PaperPosition A
  unfolding open_side
  open_short = open_side short

  unfoldable pub close : PaperPosition A → PaperPosition A
  close _ = empty

  unfoldable pub update_dynamic_tp_sl : A → A → PaperPosition A → PaperPosition A
  update_dynamic_tp_sl tp_price sl_price pos = record pos {
    tp_price = some tp_price;
    sl_price = some sl_price;
  }

module _ {A : Type 0} ⦃o : FloatOps A⦄ where
  -- The price's move against the entry, signed by the side.
  unfoldable pub move : PositionSide → A → A → A
  move long current_price entry = o.sub current_price entry
  move _ current_price entry = o.sub entry current_price

  -- The integer leverage as a factor of a float.
  abbrev pub lever : Option ℕ → Option A
  lever none = none
  lever (some n) = some (o.lit n)

  unfoldable pub pnl_of : PaperPosition A → A → A → Result PyError A
  unfolding move
  pnl_of pos current_price entry = do
    pnl_pct ← py_div (move pos.side current_price entry) entry
    size_usdt ← number pos.size_usdt
    leverage ← number (lever pos.leverage)
    ok (o.mul (o.mul pnl_pct size_usdt) leverage)

  unfoldable pub unrealized_pnl : PaperPosition A → A → Result PyError A
  unrealized_pnl pos current_price =
      if is_flat pos.side then ok (o.lit 0) else elim pos.entry_price [
        | none ↦ ok (o.lit 0)
        | some entry ↦ pnl_of pos current_price entry
      ]

  -- The price-based levels of a long and of a short position.
  unfoldable pub check_prices : PositionSide → A → A → A → Option Trigger
  check_prices long price tp sl =
      if o.le tp price then some tp_price_hit else if o.le price sl then some sl_price_hit else none
  check_prices _ price tp sl =
      if o.le price tp then some tp_price_hit else if o.le sl price then some sl_price_hit else none

  -- `self.tp_pct and pnl_pct >= self.tp_pct`, and the like for the loss
  abbrev pub tp_met : Option A → A → Bool
  tp_met none pnl_pct = false
  tp_met (some tp) pnl_pct = truthy tp && o.le tp pnl_pct

  abbrev pub sl_met : Option A → A → Bool
  sl_met none pnl_pct = false
  sl_met (some sl) pnl_pct = truthy sl && o.le pnl_pct (o.neg sl)

  unfoldable pub check_pct : PaperPosition A → A → Result PyError (Option Trigger)
  check_pct pos current_price = do
    pnl ← unrealized_pnl pos current_price
    size_usdt ← number pos.size_usdt
    leverage ← number (lever pos.leverage)
    pnl_pct ← py_div pnl (o.mul size_usdt leverage)
    ok (
        if tp_met pos.tp_pct pnl_pct
        then some tp_pct_hit
        else if sl_met pos.sl_pct pnl_pct
        then some sl_pct_hit
        else none)

  unfoldable pub check_levels :
      Option A → Option A → PaperPosition A → A → Result PyError (Option Trigger)
  check_levels (some tp) (some sl) pos current_price =
      ok (check_prices pos.side current_price tp sl)
  check_levels _ _ pos current_price = check_pct pos current_price

  -- `none` is (False, ""), and `some` is (True, reason).
  unfoldable pub check_tp_sl : PaperPosition A → A → Result PyError (Option Trigger)
  unfolding check_levels
  check_tp_sl pos current_price =
      if is_flat pos.side then ok none else check_levels pos.tp_price pos.sl_price pos current_price
