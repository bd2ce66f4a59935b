-- ===== src/Strategies/Ranges.antt =====
-- The ranges and the refusals of user-server/user_server/strategies/publish_router.py.
use artic_trader.Prelude.{String, true, Option, none, some, List, ◌≡◌}
use mathlib.Core.Path.{subst}
use artic_trader.Prelude.Exec.{ok}
use artic_trader.Prelude.Results.{Returns, Returns-bind, Returns-any}
use artic_trader.Trading.Float.{FloatOps, py_max, py_min}
use artic_trader.Trading.Clamp.{OrderLaws, Between, clamp-Between}
use artic_trader.Trading.Session.{Candle}
use artic_trader.Backtest.Metrics.{MathOps}
use artic_trader.Backtest.Orders.{Position, Outcome}
use artic_trader.Backtest.Replay.{run}
use artic_trader.Strategies.Python.{Interpreter}
use artic_trader.Strategies.Loader.{load_strategy}
use artic_trader.Strategies.Simulated.{runner_tick}
use artic_trader.Strategies.Publish.{
  clamp_int, int32_max, Published, Dataset, loaded_or_refused, dataset_or_refused, run_or_crash,
  number_or_crash, scaled, validate_and_backtest,
}

-- The bounds are equal to themselves, as all floats are but NaN, and the ranges are ranges.
pub record RangeLaws (A : Type 0) ⦃o : FloatOps A⦄ : Type 0 where
  pub order : OrderLaws A
  pub numbers :
      (o.eq (o.lit 2147483647) (o.lit 2147483647) ≡ true)
      × (o.eq (o.neg (o.lit 2147483647)) (o.neg (o.lit 2147483647)) ≡ true)
      × (o.eq (o.lit 0) (o.lit 0) ≡ true)
      × (o.eq (o.lit 10000) (o.lit 10000) ≡ true)
      × (o.eq (o.lit 4294967295) (o.lit 4294967295) ≡ true)
  pub signed : o.le (o.neg (o.lit 2147483647)) (o.lit 2147483647) ≡ true
  pub basis_points : o.le (o.lit 0) (o.lit 10000) ≡ true
  pub counts : o.le (o.lit 0) (o.lit 4294967295) ≡ true

module _ {A : Type 0} ⦃o : FloatOps A⦄ where
  -- The metrics fit the contract's integers.
  pub record InRange (p : Published A) : Type 0 where
    pub sharpe : Between (o.neg (o.lit 2147483647)) (o.lit 2147483647) p.sharpe_bps
    pub max_dd : Between (o.lit 0) (o.lit 10000) p.max_dd_bps
    pub total_return : Between (o.neg (o.lit 2147483647)) (o.lit 2147483647) p.total_return_bps
    pub win_rate : Between (o.lit 0) (o.lit 10000) p.win_rate_bps
    pub trades : Between (o.lit 0) (o.lit 4294967295) p.n_trades

module _ {A : Type 0} ⦃o : FloatOps A⦄ (laws : RangeLaws A) (round_int : A → Option A) where
  clamped-Between :
      (lo hi : A) (n : Option A)
      → o.eq lo lo ≡ true
      → o.eq hi hi ≡ true
      → o.le lo hi ≡ true
      → Returns
          (Between lo hi)
          (number_or_crash (elim n [ none ↦ none | some m ↦ some (py_max lo (py_min hi m)) ]))
  clamped-Between lo hi none b t l = tt
  clamped-Between lo hi (some m) b t l = clamp-Between laws.order lo hi m b t l

  clamp_int-Between :
      (v lo hi : A)
      → o.eq lo lo ≡ true
      → o.eq hi hi ≡ true
      → o.le lo hi ≡ true
      → Returns (Between lo hi) (number_or_crash (clamp_int round_int v lo hi))
  unfolding clamp_int
  clamp_int-Between v lo hi b t l = clamped-Between lo hi (round_int v) b t l

  scaled-InRange : (sh dh : String) (res : Outcome A) → Returns InRange (scaled round_int sh dh res)
  unfolding scaled
  scaled-InRange sh dh res =
      let (max, min, zero, points_max, count_max) = laws.numbers in
      let signed = Between (o.neg int32_max) int32_max in
      let points = Between (o.lit 0) (o.lit 10000) in
      Returns-bind signed InRange _ _ (clamp_int-Between _ _ _ min max laws.signed) (λ s hs.
        Returns-bind points InRange _ _ (clamp_int-Between _ _ _ zero points_max laws.basis_points)
          (λ d hd.
            Returns-bind signed InRange _ _ (clamp_int-Between _ _ _ min max laws.signed) (λ r hr.
              Returns-bind points InRange _ _
                (clamp_int-Between _ _ _ zero points_max laws.basis_points)
                (λ w hw.
                  Returns-bind (Between (o.lit 0) (o.lit 4294967295)) InRange _ _
                    (clamp_int-Between _ _ _ zero count_max laws.counts)
                    (λ n hn. record {
                      sharpe = hs;
                      max_dd = hd;
                      total_return = hr;
                      win_rate = hw;
                      trades = hn;
                    })))))

  module _ {V Code W : Type 0} (I : Interpreter V A Code W)
      (context : List (Candle A) → Option (Position A) → V) (m : MathOps A) where
    answer :
        (code : String) (d : Dataset A) (w : W)
        → Returns InRange (validate_and_backtest round_int I context m code d w)
    unfolding validate_and_backtest
    answer code d w = Returns-any InRange (loaded_or_refused (load_strategy I code)) _ (λ handle.
        Returns-any InRange (dataset_or_refused d.candles) _ (λ candles.
          Returns-any InRange
            (run_or_crash (run (runner_tick I context handle) (o.lit 10) m candles (o.lit 1000) w))
            _ (λ res. scaled-InRange (I.sha256 code) (I.sha256 d.payload) res)))

    -- If `≤` holds where `<` does and of every number but NaN and itself, and the bounds are numbers in
    -- their order, then whatever the strategy and the data, NaN included, the metrics that the endpoint answers fit the integers of the
    -- contract: 32 bits with a sign for the Sharpe ratio and the return, at most 10000 basis points for
    -- the drawdown and the win rate, 32 bits for the count of the trades.
    pub validate_and_backtest-InRange :
        (code : String) (d : Dataset A) (w : W) {p : Published A}
        → validate_and_backtest round_int I context m code d w ≡ ok p
        → InRange p
    validate_and_backtest-InRange code d w e = subst (Returns InRange) e (answer code d w)
