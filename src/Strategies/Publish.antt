-- ===== src/Strategies/Publish.antt =====
-- user-server/user_server/strategies/publish_router.py: the check and the backtest of a strategy that
-- is to be published. The candles of a dataset are a parameter.
use artic_trader.Prelude.{
  ℕ, zero, suc, ◌-◌, ◌/◌, String, not, Option, none, some, List, [], ◌∷◌, ◌++◌, length, take, leb,
  if◌then◌else◌,
}
use artic_trader.Prelude.Exec.{Result, ok, err}
use artic_trader.Prelude.Results.{◌>>=◌}
use artic_trader.Trading.Float.{FloatOps, PyError, py_max, py_min}
use artic_trader.Trading.Session.{Candle}
use artic_trader.Backtest.Metrics.{MathOps, last}
use artic_trader.Backtest.Orders.{Position, Outcome}
use artic_trader.Backtest.Replay.{run}
use artic_trader.Strategies.Sandbox.{ast_violation, runtime_violation, timeout_violation}
use artic_trader.Strategies.Python.{
  Interpreter, Failure, sandbox, uncompiled, unhashable, float_overflow, uncaught,
}
use artic_trader.Strategies.Loader.{load_strategy}
use artic_trader.Strategies.Simulated.{runner_tick}

-- EQUITY_SAMPLE_POINTS
abbrev pub sample_points : ℕ
sample_points = 100

-- max(1, len(curve) // max_points)
abbrev pub step_of : ℕ → ℕ
step_of n = if leb (n / sample_points) 1 then 1 else n / sample_points

module _ {A : Type 0} where
  -- curve[::step]: skip `n` values, then take one of each `step`.
  unfoldable pub stride : ℕ → ℕ → List A → List A
  stride step n [] = []
  stride step zero (x ∷ xs) = x ∷ stride step (step - 1) xs
  stride step (suc n) (x ∷ xs) = stride step n xs

  module _ ⦃o : FloatOps A⦄ where
    -- sampled.append(curve[-1]) unless it is the last already
    abbrev pub with_last : A → List A → List A → List A
    with_last x sampled curve =
        if not (o.eq (last x sampled) (last x curve)) then sampled ++ last x curve ∷ [] else sampled

    unfoldable pub sample_equity : List A → List A
    sample_equity [] = []
    sample_equity (x ∷ xs) =
        if leb (length (x ∷ xs)) sample_points
        then x ∷ xs
        else take sample_points
            (with_last x (stride (step_of (length (x ∷ xs))) 0 (x ∷ xs)) (x ∷ xs))

    -- The bounds of an `int` on the chain; `int(round(v))` raises at NaN and the infinities.
    unfoldable pub clamp_int : (A → Option A) → A → A → A → Option A
    clamp_int round_int v lo hi = clamped (round_int v)
      where
        clamped : Option A → Option A
        clamped none = none
        clamped (some n) = some (py_max lo (py_min hi n))

-- The errors of the endpoint: a 400 with its kind, or an exception that nothing catches.
pub data PublishError : Type 0 where
  bad_request : String → PublishError
  unhandled : PublishError

pub record Published (A : Type 0) : Type 0 where
  pub strategy_hash : String
  pub dataset_hash : String
  pub sharpe_bps : A
  pub max_dd_bps : A
  pub total_return_bps : A
  pub win_rate_bps : A
  pub n_trades : A
  pub final_equity : A
  pub equity_curve_sample : List A

-- The dataset that a request names, as the payload of its hash, and its candles; `none` where
-- `get_candles` raises `ValueError`.
pub record Dataset (A : Type 0) : Type 0 where
  pub payload : String
  pub candles : Option (List (Candle A))

abbrev pub load_error : Failure → PublishError
load_error (sandbox (ast_violation msg)) = bad_request "ast_violation"
load_error (sandbox (runtime_violation msg)) = bad_request "runtime_violation"
load_error (sandbox timeout_violation) = bad_request "sandbox_error"
load_error (uncompiled msg) = unhandled
load_error unhashable = unhandled
load_error float_overflow = unhandled
load_error (uncaught msg) = unhandled

abbrev pub loaded_or_refused : {X : Type 0} → Result Failure X → Result PublishError X
loaded_or_refused (ok h) = ok h
loaded_or_refused (err e) = err (load_error e)

abbrev pub dataset_or_refused : {X : Type 0} → Option X → Result PublishError X
dataset_or_refused (some x) = ok x
dataset_or_refused none = err (bad_request "bad_dataset")

abbrev pub run_or_crash : {X : Type 0} → Result PyError X → Result PublishError X
run_or_crash (ok x) = ok x
run_or_crash (err e) = err unhandled

abbrev pub number_or_crash : {X : Type 0} → Option X → Result PublishError X
number_or_crash (some x) = ok x
number_or_crash none = err unhandled

module _ {A : Type 0} ⦃o : FloatOps A⦄ where
  -- 2 ** 31 - 1
  abbrev pub int32_max : A
  int32_max = o.lit 2147483647

module _ {A : Type 0} ⦃o : FloatOps A⦄ (round_int : A → Option A) where
  -- 5) the metrics in the ranges of the contract
  unfoldable pub scaled : String → String → Outcome A → Result PublishError (Published A)
  scaled strategy_hash dataset_hash res = do
    sharpe_bps ←
        number_or_crash
          (clamp_int round_int (o.mul res.sharpe (o.lit 100)) (o.neg int32_max) int32_max)
    max_dd_bps ←
        number_or_crash
          (clamp_int round_int (o.mul res.max_drawdown (o.lit 10000)) (o.lit 0) (o.lit 10000))
    total_return_bps ←
        number_or_crash
          (clamp_int round_int (o.mul res.total_return (o.lit 10000)) (o.neg int32_max) int32_max)
    win_rate_bps ←
        number_or_crash
          (clamp_int round_int (o.mul res.win_rate (o.lit 10000)) (o.lit 0) (o.lit 10000))
    n_trades ←
        number_or_crash (clamp_int round_int (o.lit res.n_trades) (o.lit 0) (o.lit 4294967295))
    ok (record {
      strategy_hash = strategy_hash;
      dataset_hash = dataset_hash;
      sharpe_bps = sharpe_bps;
      max_dd_bps = max_dd_bps;
      total_return_bps = total_return_bps;
      win_rate_bps = win_rate_bps;
      n_trades = n_trades;
      final_equity = res.final_equity;
      equity_curve_sample = sample_equity res.equity_curve;
    })

  -- The endpoint, with the engine's default cash and fee.
  unfoldable pub validate_and_backtest :
      {V Code W : Type 0} (I : Interpreter V A Code W)
      (context : List (Candle A) → Option (Position A) → V) (m : MathOps A)
      → String
      → Dataset A
      → W
      → Result PublishError (Published A)
  unfolding scaled
  validate_and_backtest I context m code d w = do
    handle ← loaded_or_refused (load_strategy I code)
    candles ← dataset_or_refused d.candles
    res ← run_or_crash (run (runner_tick I context handle) (o.lit 10) m candles (o.lit 1000) w)
    scaled (I.sha256 code) (I.sha256 d.payload) res
