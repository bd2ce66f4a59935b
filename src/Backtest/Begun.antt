-- ===== src/Backtest/Begun.antt =====
-- user-server/user_server/backtest/engine.py: what one candle adds to the curve and to the trades.
use artic_trader.Prelude.{
  ℕ, ◌+◌, ◌-◌, ◌≤◌, str_eq, ◌&&◌, Option, none, some, List, [], ◌∷◌, ◌++◌, length, take, drop, ◌≡◌,
  refl, arith, length-append, if_both,
}
use artic_trader.Prelude.Exec.{Result, ok, err}
use artic_trader.Prelude.Results.{◌>>=◌}
use artic_trader.Trading.Float.{FloatOps, PyError}
use artic_trader.Trading.Session.{Candle}
use artic_trader.Backtest.Orders.{
  Side, long, short, CloseReason, Position, Trade, Signal, Run, Tick, close_position, mtm, hit,
  window_lookback, size_frac, level_of,
}
use artic_trader.Backtest.Replay.{
  close_run, close_at_hit, check_levels, entered, open_run, apply, value, ask, candle_step, replay,
}

-- What holds of the value of a result, if there is one.
abbrev pub Holds : {A : Type 0} → (A → Type 0) → Result PyError A → Type 0
Holds P (ok a) = P a
Holds P (err e) = Unit {0}

module _ {A B : Type 0} where
  pub Holds-bind :
      (P : B → Type 0) (m : Result PyError A) (f : A → Result PyError B)
      → ((a : A) → Holds P (f a))
      → Holds P (m >>= f)
  Holds-bind P (ok a) f h = h a
  Holds-bind P (err e) f h = tt

  pub Holds-then :
      (Q : A → Type 0) (P : B → Type 0) (m : Result PyError A) (f : A → Result PyError B)
      → Holds Q m
      → ((a : A) → Q a → Holds P (f a))
      → Holds P (m >>= f)
  Holds-then Q P (ok a) f q h = h a q
  Holds-then Q P (err e) f q h = tt

abbrev pub held : {A : Type 0} → Option (Position A) → ℕ
held none = 0
held (some pos) = 1

module _ {A W : Type 0} where
  -- After `k` candles: one value for each and the first, and at most one trade begun in each.
  pub record Bound (curve trades : ℕ) (r : Run A W) : Type 0 where
    pub curve_length : length r.equity_curve ≡ curve
    pub begun : length r.trades + held r.position ≤ trades

module _ {A : Type 0} where
  pub closes :
      (k : ℕ) (ts : List (Trade A)) (t : Trade A) (q : Option (Position A)) (pos : Position A)
      → q ≡ some pos
      → length ts + held q ≤ k
      → length (ts ++ t ∷ []) + 0 ≤ k
  closes k ts t none pos e h = cc
  closes k ts t (some _) pos e h = omega (arith, length-append ts (t ∷ []), h)

module _ {A W : Type 0} ⦃o : FloatOps A⦄ (fee : A) where
  pub close_run-Bound :
      (c k : ℕ) (pos : Position A) (price : A) (reason : CloseReason) (r : Run A W)
      → r.position ≡ some pos
      → Bound c k r
      → Holds (Bound c k) (close_run fee pos price reason r)
  unfolding close_run
  close_run-Bound c k pos price reason r e b =
      Holds-bind (Bound c k) (close_position pos price fee r.cash reason) _ (λ closed. record {
        curve_length = b.curve_length;
        begun = closes k r.trades closed.1 r.position pos e b.begun;
      })

  pub close_at_hit-Bound :
      (c k : ℕ) (pos : Position A) (h : Option (A × CloseReason)) (r : Run A W)
      → r.position ≡ some pos
      → Bound c k r
      → Holds (Bound c k) (close_at_hit fee pos h r)
  close_at_hit-Bound c k pos none r e b = b
  close_at_hit-Bound c k pos (some (price, reason)) r e b =
      close_run-Bound c k pos price reason r e b

  pub check_levels-Bound :
      (c k : ℕ) (q : Option (Position A)) (candle : Candle A) (r : Run A W)
      → r.position ≡ q
      → Bound c k r
      → Holds (Bound c k) (check_levels fee q candle r)
  unfolding check_levels
  check_levels-Bound c k none candle r e b = b
  check_levels-Bound c k (some pos) candle r e b =
      close_at_hit-Bound c k pos (hit pos candle.high candle.low) r e b

  pub more : (c k : ℕ) (r : Run A W) → Bound c k r → Bound c (k + 1) r
  more c k r b = record { curve_length = b.curve_length; begun = omega (arith, b.begun) }

  pub open_run-Bound :
      (c k : ℕ) (side : Side) (price : A) (signal : Signal A) (r : Run A W)
      → r.position ≡ none
      → Bound c k r
      → Holds (Bound c (k + 1)) (open_run fee side price signal r)
  unfolding open_run
  open_run-Bound c k side price signal r e b =
      let size = o.mul r.cash (size_frac signal.size) in
      if_both (Holds (Bound {A = A} {W = W} c (k + 1)))
        (o.lt (o.lit 0) r.cash && o.lt (o.lit 0) (size_frac signal.size)) _ (ok r)
        (Holds-bind (Bound c (k + 1)) (level_of signal.stop_loss)
          (λ sl. level_of signal.take_profit >>= (λ tp. ok (entered fee side price size sl tp r)))
          (λ sl.
            Holds-bind (Bound c (k + 1)) (level_of signal.take_profit)
              (λ tp. ok (entered fee side price size sl tp r))
              (λ tp. record { curve_length = b.curve_length; begun = opens r.position e b.begun })))
        (more c k r b)
    where
      opens :
          (q : Option (Position A))
          → q ≡ none
          → length r.trades + held q ≤ k
          → length r.trades + 1 ≤ k + 1
      opens none e h = omega (arith, h)
      opens (some _) e h = cc

  pub apply-Bound :
      (c k : ℕ) (q : Option (Position A)) (price : A) (signal : Signal A) (r : Run A W)
      → r.position ≡ q
      → Bound c k r
      → Holds (Bound c (k + 1)) (apply fee q price signal r)
  unfolding apply
  apply-Bound c k none price signal r e b =
      if_both (Holds (Bound c (k + 1))) (str_eq signal.action "OPEN_LONG") _ _
        (open_run-Bound c k long price signal r e b)
        (if_both (Holds (Bound c (k + 1))) (str_eq signal.action "OPEN_SHORT") _ _
          (open_run-Bound c k short price signal r e b) (more c k r b))
  apply-Bound c k (some pos) price signal r e b =
      if_both (Holds (Bound c (k + 1))) (str_eq signal.action "CLOSE") _ _
        (close_run-Bound c (k + 1) pos price CloseReason.signal_close r e (more c k r b))
        (more c k r b)

  pub value-Bound :
      (c k : ℕ) (price : A) (r : Run A W) → Bound c k r → Holds (Bound (c + 1) k) (value price r)
  unfolding value
  value-Bound c k price r b =
      Holds-bind (Bound (c + 1) k) (mtm r.position r.cash price) _ (λ equity. record {
        curve_length = omega (arith, length-append r.equity_curve (equity ∷ []), b.curve_length);
        begun = b.begun;
      })

module _ {A W : Type 0} ⦃o : FloatOps A⦄ (tick_fn : Tick A W) (fee : A) where
  pub candle_step-Bound :
      (c k : ℕ) (window : List (Candle A)) (candle : Candle A) (r : Run A W)
      → Bound c k r
      → Holds (Bound (c + 1) (k + 1)) (candle_step tick_fn fee window candle r)
  unfolding candle_step ask
  candle_step-Bound c k window candle r b =
      Holds-then (Bound c k) (Bound (c + 1) (k + 1)) (check_levels fee r.position candle r) _
        (check_levels-Bound fee c k r.position candle r refl b)
        (λ r₁ b₁.
          Holds-then (Bound c (k + 1)) (Bound (c + 1) (k + 1)) _ (value candle.close_price)
            (apply-Bound fee c k r₁.position candle.close_price _ (ask tick_fn fee window r₁).1 refl
              (record { curve_length = b₁.curve_length; begun = b₁.begun }))
            (λ r₂ b₂. value-Bound fee c (k + 1) candle.close_price r₂ b₂))

  pub replay-Bound :
      (c k c' k' : ℕ) (candles : List (Candle A)) (i : ℕ) (cs : List (Candle A)) (r : Run A W)
      → c + length cs ≡ c'
      → k + length cs ≡ k'
      → Bound c k r
      → Holds (Bound c' k') (replay tick_fn fee candles i cs r)
  unfolding replay
  replay-Bound c k c' k' candles i [] r e f b = record {
    curve_length = omega (arith, b.curve_length, e);
    begun = omega (arith, b.begun, f);
  }
  replay-Bound c k c' k' candles i (x ∷ cs) r e f b =
      let window = drop (i - window_lookback) (take (i + 1) candles) in
      Holds-then (Bound (c + 1) (k + 1)) (Bound c' k') (candle_step tick_fn fee window x r)
        (replay tick_fn fee candles (i + 1) cs) (candle_step-Bound c k window x r b)
        (λ r' b'.
          replay-Bound (c + 1) (k + 1) c' k' candles (i + 1) cs r' (omega (arith, e))
            (omega (arith, f)) b')
