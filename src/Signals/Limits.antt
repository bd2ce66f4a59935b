-- ===== src/Signals/Limits.antt =====
-- The ranges of what compute_strategy_signal of app/strategies/signals.py returns, by strategy.
use mathlib.Core.Path.{subst}
use artic_trader.Prelude.{
  ℕ, Bool, true, false, String, str_eq, Option, none, some, List, [], ◌∷◌, ◌≡◌, refl, map,
  Bool-cases, inl, inr, if◌then◌else◌,
}
use artic_trader.Prelude.Exec.{Result, ok}
use artic_trader.Prelude.Results.{Returns}
use artic_trader.Trading.Float.{FloatOps, PyError}
use artic_trader.Trading.Session.{Candle, StrategyPlan}
use artic_trader.Signals.Momentum.{simple_momentum}
use artic_trader.Signals.Volume.{max_ℕ}
use artic_trader.Signals.Dispatch.{
  Library, min_ℕ, named, choose, enough, candle_dict, price_signals, candle_signals, fallbacks,
  compute_strategy_signal,
}
use artic_trader.Signals.Range.{
  Within, z_score-Within, bollinger-Within, rsi-Within, range_sr-Within, stochastic-Within,
}
use artic_trader.Signals.Bounded.{
  RangeLaws, breakout-Within, donchian-Within, macd-Within, squeeze-Within, demo-Within,
  line-Within, kalman-Within,
}
use artic_trader.Signals.CandleBounds.{
  supertrend-Within, adx-Within, ichimoku-Within, atr_breakout-Within, keltner-Within, vwap-Within,
  obv-Within,
}

-- Two chains with the same names, whose results are related one by one.
abbrev Aligned : {B X : Type 0} → (B → X → Type 0) → List (String × B) → List (String × X) → Type 0
Aligned P [] [] = Unit
Aligned P [] ((k, x) ∷ xs) = ⊥
Aligned P ((c, b) ∷ bs) [] = ⊥
Aligned P ((c, b) ∷ bs) ((k, x) ∷ xs) = (c ≡ k) × (P b x × Aligned P bs xs)

choose-Aligned :
    {B X : Type 0} (name : String) (P : B → X → Type 0) (bs : List (String × B))
    (xs : List (String × X)) (b : B) (x : X)
    → Aligned P bs xs
    → P b x
    → P (choose name bs b) (choose name xs x)
choose-Aligned name P [] [] b x a h = h
choose-Aligned name P [] ((k, y) ∷ xs) b x a h = absurd a
choose-Aligned name P ((c, d) ∷ bs) [] b x a h = absurd a
choose-Aligned name P ((c, d) ∷ bs) ((k, y) ∷ xs) b x (e, (a, as_)) h =
    elim (Bool-cases (str_eq name c)) [
      | inl t ↦ rw (t, subst (λ z. str_eq name z ≡ true) e t) a
      | inr t ↦
          rw (t, subst (λ z. str_eq name z ≡ false) e t) (choose-Aligned name P bs xs b x as_ h)
    ]

-- The bound on the size of a signal, by its name: none for the momenta, the averages, mETH and
-- smart_money.
abbrev price_limits : List (String × Option ℕ)
price_limits =
    ("momentum", none)
    ∷ ("dual_momentum", none)
    ∷ ("breakout", some 1)
    ∷ ("donchian_channel", some 1)
    ∷ ("ma_crossover", none)
    ∷ ("ema_crossover", none)
    ∷ ("macd_signal", some 1)
    ∷ ("z_score", some 2)
    ∷ ("bollinger_reversion", some 1)
    ∷ ("rsi_signal", some 1)
    ∷ ("range_sr", some 1)
    ∷ ("bollinger_squeeze", some 1)
    ∷ ("linear_regression_channel", some 2)
    ∷ ("kalman_fair_value", some 2)
    ∷ ("meth_rwa", none)
    ∷ []

abbrev candle_limits : List (String × Option ℕ)
candle_limits =
    ("trend_following", none)
    ∷ ("mean_reversion", some 2)
    ∷ ("adx_filter", some 1)
    ∷ ("supertrend", some 1)
    ∷ ("ichimoku_signal", some 1)
    ∷ ("stochastic_signal", some 1)
    ∷ ("atr_breakout", some 1)
    ∷ ("keltner_bollinger", some 1)
    ∷ ("vwap_deviation", some 1)
    ∷ ("obv_trend", some 1)
    ∷ ("smart_money", none)
    ∷ []

abbrev fallback_limits : List (String × Option ℕ)
fallback_limits =
    ("trend_following", none)
    ∷ ("mean_reversion", none)
    ∷ ("funding_oi_filter", none)
    ∷ ("demo_mode", some 1)
    ∷ []

-- The candle signals count only where there are enough candles.
abbrev pub limit_of : Bool → String → Option ℕ
limit_of candles name =
    let rest = choose name fallback_limits none in
    choose name price_limits (if candles then choose name candle_limits rest else rest)

module _ {A : Type 0} ⦃o : FloatOps A⦄ where
  abbrev pub InLimit : Option ℕ → A → Type 0
  InLimit none x = Unit
  InLimit (some b) x = Within b x

  abbrev Limited : Option ℕ → Result PyError A → Type 0
  Limited b r = Returns (InLimit b) r

  Limited-if :
      (t : Bool) (b b' : Option ℕ) (r r' : Result PyError A)
      → Limited b r
      → Limited b' r'
      → Limited (if t then b else b') (if t then r else r')
  Limited-if true b b' r r' h h' = h
  Limited-if false b b' r r' h h' = h'

  anything : (r : Result PyError A) → Limited none r
  anything (ok x) = tt
  anything (Result.err e) = tt

-- The next case of two aligned chains.
infixr 5 ◌⊳◌
abbrev ◌⊳◌ : {c : String} {X Y : Type 0} → X → Y → (c ≡ c) × (X × Y)
x ⊳ y = (refl, (x, y))

module _ {A : Type 0} ⦃o : FloatOps A⦄ (laws : RangeLaws A) where
  prices-Limited :
      (l : Library A) (prices : List A) (n : ℕ)
      → Aligned Limited price_limits (price_signals l prices n)
  prices-Limited l prices n =
      anything _
      ⊳ anything _
      ⊳ breakout-Within laws prices n
      ⊳ donchian-Within laws prices n
      ⊳ anything _
      ⊳ anything _
      ⊳ macd-Within laws prices 12 26 9
      ⊳ z_score-Within laws.base l.math prices n
      ⊳ bollinger-Within laws.base l.math prices n (o.lit 2)
      ⊳ rsi-Within laws.base prices (min_ℕ 14 n) (o.lit 70) (o.lit 30)
      ⊳ range_sr-Within laws.base prices n
      ⊳ squeeze-Within laws l.math prices n (o.quot (o.lit 1) (o.lit 10))
      ⊳ line-Within laws l.math prices n
      ⊳ kalman-Within laws l.root prices _ _
      ⊳ anything _
      ⊳ tt

  candles-Limited :
      (l : Library A) (prices : List A) (cs : List (Candle A)) (n : ℕ)
      → Aligned Limited candle_limits (candle_signals l prices cs n)
  candles-Limited l prices cs n =
      anything _
      ⊳ z_score-Within laws.base l.math prices n
      ⊳ adx-Within laws cs 14 (o.lit 25)
      ⊳ supertrend-Within laws cs 14 (o.lit 3)
      ⊳ ichimoku-Within laws cs 9 26 52
      ⊳ stochastic-Within laws.base cs (min_ℕ 14 n) 3
      ⊳ atr_breakout-Within laws cs 14 (o.quot (o.lit 3) (o.lit 2))
      ⊳ keltner-Within laws l.math cs n (o.lit 2)
      ⊳ vwap-Within laws cs
      ⊳ obv-Within laws cs n
      ⊳ anything _
      ⊳ tt

  fallbacks-Limited :
      (l : Library A) (plan : StrategyPlan A) (prices : List A) (cs : List (Candle A))
      → Aligned Limited fallback_limits (fallbacks l plan prices cs)
  fallbacks-Limited l plan prices cs =
      anything _ ⊳ anything _ ⊳ anything _ ⊳ demo-Within laws prices ⊳ tt

  -- If `≤` holds where `<` does and of each number that is equal to itself, and the constants of the
  -- ranges are such numbers in their order, then every signal that is returned is in the range of its
  -- strategy, whatever the prices, the candles and the plan are: at most 2 in size for the z-score, the regression channel and the Kalman filter, and
  -- at most 1 for sixteen others, of which the candle signals need as many candles as the lookback.
  pub compute_strategy_signal-InLimit :
      (l : Library A) (strategy : String) (plan : StrategyPlan A) (prices : List A)
      (candles : List (Candle A))
      → Returns
          (InLimit (limit_of (enough candles (max_ℕ 2 plan.lookback)) (named l strategy)))
          (compute_strategy_signal l strategy plan prices candles)
  unfolding compute_strategy_signal
  compute_strategy_signal-InLimit l strategy plan prices candles =
      let n = max_ℕ 2 plan.lookback in
      let name = named l strategy in
      let momentum = simple_momentum prices n in
      let last_resort =
        choose-Aligned name Limited fallback_limits (fallbacks l plan prices candles) none momentum
          (fallbacks-Limited l plan prices candles) (anything momentum) in
      choose-Aligned name Limited price_limits (price_signals l prices n) _ _
        (prices-Limited l prices n)
        (Limited-if (enough candles n) _ _ _ _
          (choose-Aligned name Limited candle_limits
            (candle_signals l prices (map candle_dict candles) n) _ _
            (candles-Limited l prices (map candle_dict candles) n) last_resort)
          last_resort)
