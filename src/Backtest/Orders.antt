-- ===== src/Backtest/Orders.antt =====
-- user-server/user_server/backtest/engine.py: the positions, the trades and the signals of a run. The
-- strategy is a parameter: it may raise, and it may keep a state of its own.
use artic_trader.Prelude.{ℕ, String, Bool, Option, none, some, List, [], ◌∷◌, if◌then◌else◌}
use artic_trader.Prelude.Exec.{Result, ok, err}
use artic_trader.Prelude.Results.{◌>>=◌}
use artic_trader.Trading.Float.{FloatOps, PyError, type_error, py_div, py_min, py_max}
use artic_trader.Trading.Session.{Candle}

pub data Side : Type 0 where
  long short : Side

pub data CloseReason : Type 0 where
  stop_loss take_profit signal_close force_close : CloseReason

pub record Position (A : Type 0) : Type 0 where
  pub side : Side
  pub entry : A
  pub size_usdt : A
  pub stop_loss : Option A
  pub take_profit : Option A

pub record Trade (A : Type 0) : Type 0 where
  pub side : Side
  pub entry : A
  pub exit : A
  pub size_usdt : A
  pub pnl_usdt : A
  pub reason : CloseReason

-- A value of the signal's dict: what `float` makes a number of, or what it does not.
pub data Field (A : Type 0) : Type 0 where
  missing null junk : Field A
  number : A → Field A

pub record Signal (A : Type 0) : Type 0 where
  pub action : String
  pub size : Field A
  pub stop_loss : Field A
  pub take_profit : Field A

pub record Outcome (A : Type 0) : Type 0 where
  pub sharpe : A
  pub max_drawdown : A
  pub total_return : A
  pub win_rate : A
  pub n_trades : ℕ
  pub final_equity : A
  pub equity_curve : List A
  pub trades : List (Trade A)

-- The locals of the loop, and the state of the strategy. The curve is its last value and those before.
pub record Run (A W : Type 0) : Type 0 where
  pub cash : A
  pub position : Option (Position A)
  pub equity_curve : List A
  pub trades : List (Trade A)
  pub world : W

-- What the strategy is called with and returns, or `none` if it raises. The position of its ctx is the
-- engine's own dict: a strategy that writes to it, as one that raises what is no `Exception`, is left out.
abbrev pub Tick : Type 0 → Type 0 → Type 0
Tick A W = List (Candle A) → Option (Position A) → W → Option (Signal A) × W

abbrev pub warmup : ℕ
warmup = 20

abbrev pub window_lookback : ℕ
window_lookback = 100

module _ {A : Type 0} ⦃o : FloatOps A⦄ where
  abbrev pub gain : Side → A → A → A
  gain long entry price = o.sub price entry
  gain short entry price = o.sub entry price

  abbrev pub fee_of : A → A → A
  fee_of size fee_bps = o.quot (o.mul size fee_bps) (o.lit 10000)

  -- The new cash, and the trade.
  unfoldable pub close_position :
      Position A → A → A → A → CloseReason → Result PyError (A × Trade A)
  close_position pos exit_price fee_bps cash reason = do
    pnl_frac ← py_div (gain pos.side pos.entry exit_price) pos.entry
    let pnl_usdt = o.mul pos.size_usdt pnl_frac
    ok (
      o.sub (o.add (o.add cash pos.size_usdt) pnl_usdt) (fee_of pos.size_usdt fee_bps),
      record {
        side = pos.side;
        entry = pos.entry;
        exit = exit_price;
        size_usdt = pos.size_usdt;
        pnl_usdt = pnl_usdt;
        reason = reason;
      },
    )

  unfoldable pub mtm : Option (Position A) → A → A → Result PyError A
  mtm none cash price = ok cash
  mtm (some pos) cash price = do
    pnl_frac ← py_div (gain pos.side pos.entry price) pos.entry
    ok (o.add cash (o.mul pos.size_usdt (o.add (o.lit 1) pnl_frac)))

  -- `level is not None and test`
  abbrev pub crossed : Option A → (A → Bool) → CloseReason → Option (A × CloseReason)
  crossed none test reason = none
  crossed (some level) test reason = if test level then some (level, reason) else none

  abbrev pub or_hit : Option (A × CloseReason) → Option (A × CloseReason) → Option (A × CloseReason)
  or_hit (some h) second = some h
  or_hit none second = second

  -- The level that a candle reaches, the stop first.
  unfoldable pub hit : Position A → A → A → Option (A × CloseReason)
  hit pos high low = elim pos.side [
    | long ↦
        or_hit (crossed pos.stop_loss (λ sl. o.le low sl) stop_loss)
          (crossed pos.take_profit (λ tp. o.le tp high) take_profit)
    | short ↦
        or_hit (crossed pos.stop_loss (λ sl. o.le sl high) stop_loss)
          (crossed pos.take_profit (λ tp. o.le low tp) take_profit)
  ]

  abbrev pub no_signal : Signal A
  no_signal = record { action = "HOLD"; size = missing; stop_loss = missing; take_profit = missing }

  abbrev pub signal_of : Option (Signal A) → Signal A
  signal_of none = record no_signal { size = number (o.lit 0) }
  signal_of (some s) = s

  -- float(size), without the `OverflowError` of an int that is too large for a float.
  abbrev pub raw_size : Field A → A
  raw_size (number x) = x
  raw_size _ = o.lit 1

  unfoldable pub size_frac : Field A → A
  size_frac f = py_max (o.lit 0) (py_min (o.lit 1) (raw_size f))

  abbrev pub level_of : Field A → Result PyError (Option A)
  level_of missing = ok none
  level_of null = ok none
  level_of junk = err type_error
  level_of (number x) = ok (some x)

module _ {A : Type 0} where
  -- equity_curve[-1] = cash
  abbrev pub set_last : List A → A → List A
  set_last [] v = []
  set_last (x ∷ []) v = v ∷ []
  set_last (x ∷ y ∷ ys) v = x ∷ set_last (y ∷ ys) v

  abbrev pub last_close : A → List (Candle A) → A
  last_close p [] = p
  last_close p (c ∷ cs) = last_close c.close_price cs

module _ {A W : Type 0} where
  abbrev pub started : A → W → Run A W
  started initial_usdt w = record {
    cash = initial_usdt;
    position = none;
    equity_curve = initial_usdt ∷ [];
    trades = [];
    world = w;
  }
