-- ===== src/Strategies/PublishTests.antt =====
-- Runs of user-server/user_server/strategies/publish_router.py.
use artic_trader.Prelude.{
  ℕ, zero, suc, ◌<◌, true, some, List, [], ◌∷◌, length, ◌≡◌, refl, false, arith,
}
use artic_trader.Prelude.Exec.{ok, err}
use artic_trader.Dict.{get}
use artic_trader.Trading.Whole.{whole}
use artic_trader.Backtest.Metrics.{
  sharpe, ratio, squares, returns, max_drawdown, deepen, win_rate, wins, total_return,
}
use artic_trader.Backtest.Orders.{hit, size_frac, close_position, mtm}
use artic_trader.Backtest.Replay.{
  run, full_run, replay, candle_step, check_levels, ask, apply, open_run, close_run, value,
  close_last, outcome,
}
use artic_trader.Strategies.Sandbox.{
  among, ends_with, is_dunder, check_text, check_node, check_all, walk_from, walk, size,
  validate_ast,
}
use artic_trader.Strategies.Walk.{Everywhere}
use artic_trader.Strategies.Clean.{IsClean}
use artic_trader.Strategies.Loader.{parse_and_validate, load_strategy}
use artic_trader.Strategies.Tick.{tick}
use artic_trader.Strategies.Simulated.{runner_tick}
use artic_trader.Strategies.Publish.{
  sample_points, stride, sample_equity, clamp_int, scaled, bad_request, Published, Dataset,
  validate_and_backtest,
}
use artic_trader.Strategies.Ranges.{RangeLaws, InRange, validate_and_backtest-InRange}
use artic_trader.Strategies.Refusals.{validate_and_backtest-refuses}
use artic_trader.Strategies.Tests.{python, math, candles_of, context, bad_tree}

abbrev climb : ℕ → List ℕ
climb zero = []
climb (suc n) = n ∷ climb n

climb_long : sample_points < length (climb 150)
climb_long = omega arith

whole_laws : RangeLaws ℕ ⦃o = whole⦄
whole_laws = record {
  order = record { eq→le = λ x e. ground arith; lt→le = λ x y h. ground arith };
  numbers = (refl, refl, refl, refl, refl);
  signed = refl;
  basis_points = refl;
  counts = refl;
}

abbrev data_set : Dataset ℕ
data_set = record { payload = "BTC/USDT"; candles = some (candles_of 22) }

abbrev answer : Published ℕ
answer = record {
  strategy_hash = "good";
  dataset_hash = "BTC/USDT";
  sharpe_bps = 0;
  max_dd_bps = 0;
  total_return_bps = 0;
  win_rate_bps = 0;
  n_trades = 1;
  final_equity = 999;
  equity_curve_sample = 1000 ∷ 1000 ∷ 999 ∷ [];
}

publishes :
    validate_and_backtest ⦃o = whole⦄ (λ x. some x) python context math "good" data_set 0
    ≡ ok answer
unfolding run full_run replay candle_step check_levels hit ask apply open_run size_frac close_run
    close_position value mtm close_last outcome sharpe ratio squares returns max_drawdown deepen
    win_rate wins total_return runner_tick tick get among load_strategy parse_and_validate
    validate_ast walk size walk_from check_all check_node check_text is_dunder ends_with
    validate_and_backtest scaled clamp_int sample_equity stride
publishes = refl

validate_and_backtest-InRange_example : InRange ⦃o = whole⦄ answer
validate_and_backtest-InRange_example =
    validate_and_backtest-InRange ⦃o = whole⦄ whole_laws (λ x. some x) python context math "good"
      data_set 0 publishes

bad_refused : ¬ Everywhere IsClean bad_tree
unfolding among is_dunder ends_with
bad_refused e = clash (e.1.0.0.names "__class__" refl refl).0
  where
    clash : true ≡ false → ⊥
    clash q = cc

validate_and_backtest-refuses_example :
    validate_and_backtest ⦃o = whole⦄ (λ x. some x) python context math "bad" data_set 0
    ≡ err (bad_request "ast_violation")
validate_and_backtest-refuses_example =
    validate_and_backtest-refuses python ⦃o = whole⦄ (λ x. some x) context math "bad" data_set 0
      bad_tree refl bad_refused
