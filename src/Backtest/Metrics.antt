-- ===== src/Backtest/Metrics.antt =====
-- user-server/user_server/backtest/metrics.py. `math.sqrt` and the power are parameters.
use mathlib.Core.List.{foldl}
use artic_trader.Prelude.{ℕ, ◌+◌, ◌-◌, List, [], ◌∷◌, length, ltb, if◌then◌else◌}
use artic_trader.Prelude.Exec.{Result, ok}
use artic_trader.Prelude.Results.{◌>>=◌}
use artic_trader.Trading.Float.{FloatOps, PyError}

-- `x ** 2` raises where it overflows.
pub record MathOps (A : Type 0) : Type 0 where
  pub sqrt : A → A
  pub square : A → Result PyError A

module _ {A : Type 0} ⦃o : FloatOps A⦄ where
  abbrev pub sum : List A → A
  sum = foldl o.add (o.lit 0)

  unfoldable pub returns : List A → List A
  returns [] = []
  returns (prev ∷ []) = []
  returns (prev ∷ v ∷ vs) =
      (if o.eq prev (o.lit 0) then o.lit 0 else o.quot (o.sub v prev) prev) ∷ returns (v ∷ vs)

  unfoldable pub squares : MathOps A → A → List A → Result PyError (List A)
  squares m mean [] = ok []
  squares m mean (r ∷ rs) = do s ← m.square (o.sub r mean); ss ← squares m mean rs; ok (s ∷ ss)

  -- The ratio once there are two returns.
  unfoldable pub ratio : MathOps A → List A → Result PyError A
  unfolding squares
  ratio m rets = do
    let mean = o.quot (sum rets) (o.lit (length rets))
    ss ← squares m mean rets
    let std = m.sqrt (o.quot (sum ss) (o.lit (length rets - 1)))
    ok (if o.eq std (o.lit 0) then o.lit 0 else o.mul (o.quot mean std) (m.sqrt (o.lit 8760)))

  unfoldable pub sharpe : MathOps A → List A → Result PyError A
  unfolding ratio returns
  sharpe m equity_curve =
      if ltb (length (returns equity_curve)) 2 then ok (o.lit 0) else ratio m (returns equity_curve)

  -- One step of the drawdown: the peak and the drawdown so far.
  unfoldable pub deepen : A × A → A → A × A
  deepen (peak, mdd) v =
      let peak' = if o.lt peak v then v else peak in
      let dd = o.quot (o.sub peak' v) peak' in
      (peak', if o.lt (o.lit 0) peak' then if o.lt mdd dd then dd else mdd else mdd)

  unfoldable pub max_drawdown : List A → A
  unfolding deepen
  max_drawdown [] = o.lit 0
  max_drawdown (v ∷ vs) = (foldl deepen (v, o.lit 0) (v ∷ vs)).1

  -- The number of positive results, and its share.
  unfoldable pub wins : List A → ℕ
  wins [] = 0
  wins (pnl ∷ pnls) = let rest = wins pnls in if o.lt (o.lit 0) pnl then rest + 1 else rest

  unfoldable pub win_rate : List A → A
  unfolding wins
  win_rate [] = o.lit 0
  win_rate (pnl ∷ pnls) = o.quot (o.lit (wins (pnl ∷ pnls))) (o.lit (length (pnl ∷ pnls)))

  abbrev pub last : A → List A → A
  last v [] = v
  last v (w ∷ ws) = last w ws

  unfoldable pub total_return : List A → A → A
  total_return [] initial = o.lit 0
  total_return (v ∷ vs) initial =
      if o.eq initial (o.lit 0) then o.lit 0 else o.quot (o.sub (last v vs) initial) initial
