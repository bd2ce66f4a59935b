-- ===== src/Backtest/Bounds.antt =====
-- user-server/user_server/backtest/engine.py: how much a run trades, and how long its curve is.
use artic_trader.Prelude.{
  ℕ, suc, ◌+◌, ◌-◌, ◌≤◌, true, leb, Option, none, some, List, [], ◌∷◌, length, drop, ◌≡◌, refl,
  arith, length-drop, Bool-cases, inl, inr, ◌∙◌, ap,
}
use mathlib.Core.Path.{subst}
use artic_trader.Prelude.Exec.{ok}
use artic_trader.Trading.Float.{FloatOps}
use artic_trader.Trading.Session.{Candle}
use artic_trader.Backtest.Metrics.{MathOps, sharpe}
use artic_trader.Backtest.Orders.{
  CloseReason, Position, Outcome, Run, Tick, warmup, set_last, last_close, started,
}
use artic_trader.Backtest.Replay.{close_run, replay, close_last, outcome, full_run, run}
use artic_trader.Backtest.Begun.{
  Holds, Holds-bind, Holds-then, Bound, close_run-Bound, replay-Bound,
}

module _ {A : Type 0} where
  length-set_last : (xs : List A) (v : A) → length (set_last xs v) ≡ length xs
  length-set_last [] v = refl
  length-set_last (x ∷ []) v = refl
  length-set_last (x ∷ y ∷ ys) v = ap suc (length-set_last (y ∷ ys) v)

  -- One value for each candle after the warm-up and one before, and no more trades than candles.
  abbrev pub IsBounded : List (Candle A) → Outcome A → Type 0
  IsBounded candles res =
      (length res.equity_curve ≡ (length candles - warmup) + 1)
      × (res.n_trades ≡ length res.trades)
      × (res.n_trades ≤ length candles - warmup)

module _ {A W : Type 0} ⦃o : FloatOps A⦄ (fee : A) where
  close_last-Bound :
      (c k : ℕ) (q : Option (Position A)) (price : A) (r : Run A W)
      → r.position ≡ q
      → Bound c k r
      → Holds (Bound c k) (close_last fee q price r)
  unfolding close_last
  close_last-Bound c k none price r e b = b
  close_last-Bound c k (some pos) price r e b =
      Holds-then (Bound c k) (Bound c k) (close_run fee pos price CloseReason.force_close r)
        (λ r'. ok (record r' { equity_curve = set_last r'.equity_curve r'.cash }))
        (close_run-Bound fee c k pos price CloseReason.force_close r e b)
        (λ r' b'. record {
          curve_length = length-set_last r'.equity_curve r'.cash ∙ b'.curve_length;
          begun = b'.begun;
        })

module _ {A W : Type 0} ⦃o : FloatOps A⦄ where
  outcome-IsBounded :
      (m : MathOps A) (candles : List (Candle A)) (initial : A) (r : Run A W)
      → Bound ((length candles - warmup) + 1) (length candles - warmup) r
      → Holds (IsBounded candles) (outcome m initial r)
  unfolding outcome
  outcome-IsBounded m candles initial r b =
      Holds-bind (IsBounded candles) (sharpe m r.equity_curve) _
        (λ s. (b.curve_length, refl, omega (arith, b.begun)))

module _ {A W : Type 0} ⦃o : FloatOps A⦄ (tick_fn : Tick A W) (fee : A) (m : MathOps A) where
  full_run-IsBounded :
      (candles : List (Candle A)) (initial : A) (w : W)
      → Holds (IsBounded candles) (full_run tick_fn fee m candles initial w)
  unfolding full_run
  full_run-IsBounded candles initial w =
      let k = length candles - warmup in
      Holds-then (Bound (k + 1) k) (IsBounded candles)
        (replay tick_fn fee candles warmup (drop warmup candles) (started initial w)) _
        (replay-Bound tick_fn fee 1 0 (k + 1) k candles warmup (drop warmup candles)
          (started initial w) (omega (arith, length-drop warmup candles))
          (omega (arith, length-drop warmup candles))
          (record { curve_length = refl; begun = omega arith }))
        (λ r b.
          Holds-then (Bound (k + 1) k) (IsBounded candles)
            (close_last fee r.position (last_close initial candles) r) (outcome m initial)
            (close_last-Bound fee (k + 1) k r.position (last_close initial candles) r refl b)
            (λ r' b'. outcome-IsBounded m candles initial r' b'))

  run-IsBounded :
      (candles : List (Candle A)) (initial : A) (w : W)
      → Holds (IsBounded candles) (run tick_fn fee m candles initial w)
  unfolding run
  run-IsBounded candles initial w = elim (Bool-cases (leb (length candles) warmup)) [
    | inl e ↦ rw e (short_run (length candles) e, refl, omega arith)
    | inr e ↦ rw e (full_run-IsBounded candles initial w)
  ]
    where
      short_run : (n : ℕ) → leb n warmup ≡ true → 1 ≡ (n - warmup) + 1
      short_run n e = ground arith

  -- A backtest that ends without an exception has one value in its equity curve for each candle
  -- after the twenty of the warm-up, and the initial one; it counts its trades, and they are no
  -- more than those candles.
  pub run_bounds :
      (candles : List (Candle A)) (initial : A) (w : W) {res : Outcome A}
      → run tick_fn fee m candles initial w ≡ ok res
      → IsBounded candles res
  run_bounds candles initial w e =
      subst (Holds (IsBounded candles)) e (run-IsBounded candles initial w)
