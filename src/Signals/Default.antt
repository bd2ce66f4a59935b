-- ===== src/Signals/Default.antt =====
-- What app/strategies/signals.py computes for a strategy that no branch takes.
use artic_trader.Prelude.{String, List, ◌≡◌, ◌⊎◌, inl, inr, false, map, ◌∙◌, if_both}
use artic_trader.Trading.Float.{FloatOps}
use artic_trader.Trading.Session.{Candle, StrategyPlan}
use artic_trader.Signals.Momentum.{simple_momentum}
use artic_trader.Signals.Volume.{max_ℕ}
use artic_trader.Signals.Dispatch.{
  Library, named, enough, candle_dict, price_signals, candle_signals, fallbacks,
  compute_strategy_signal,
}
use artic_trader.Signals.Chosen.{Misses, choose-Misses}

module _ {A : Type 0} ⦃o : FloatOps A⦄ where
  -- A name that is neither a price signal nor a fallback gives the plain momentum, if there are fewer
  -- candles than the lookback, also for the name of a candle signal, or if it is none of these either.
  pub compute_strategy_signal-default :
      (l : Library A) (strategy : String) (plan : StrategyPlan A) (prices : List A)
      (candles : List (Candle A))
      → Misses (named l strategy) (price_signals l prices (max_ℕ 2 plan.lookback))
      → Misses (named l strategy) (fallbacks l plan prices candles)
      → (enough candles (max_ℕ 2 plan.lookback) ≡ false)
        ⊎ Misses
            (named l strategy)
            (candle_signals l prices (map candle_dict candles) (max_ℕ 2 plan.lookback))
      → compute_strategy_signal l strategy plan prices candles
        ≡ simple_momentum prices (max_ℕ 2 plan.lookback)
  unfolding compute_strategy_signal
  compute_strategy_signal-default l strategy plan prices candles p f (inl few) =
      rw
        (choose-Misses (named l strategy) (price_signals l prices (max_ℕ 2 plan.lookback)) _ p, few)
        (choose-Misses (named l strategy) (fallbacks l plan prices candles) _ f)
  compute_strategy_signal-default l strategy plan prices candles p f (inr c) =
      choose-Misses (named l strategy) (price_signals l prices (max_ℕ 2 plan.lookback)) _ p
      ∙ if_both (λ r. r ≡ simple_momentum prices (max_ℕ 2 plan.lookback))
          (enough candles (max_ℕ 2 plan.lookback)) _ _
          (choose-Misses (named l strategy)
              (candle_signals l prices (map candle_dict candles) (max_ℕ 2 plan.lookback)) _ c
            ∙ choose-Misses (named l strategy) (fallbacks l plan prices candles) _ f)
          (choose-Misses (named l strategy) (fallbacks l plan prices candles) _ f)
