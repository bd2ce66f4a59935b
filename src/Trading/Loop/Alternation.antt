-- ===== src/Trading/Loop/Alternation.antt =====
-- app/engine.py: the ledger of the run over the rounds of `_trading_loop`.
use mathlib.Core.Path.{subst}
use artic_trader.Prelude.{ℕ, zero, suc, ◌≡◌, refl, sym, Option, none, some, if_both}
use artic_trader.Prelude.Exec.{Result, ok, err, Keeps, keeps_rules, Keeps-bind, Keeps-pure, ◌>>=◌}
use artic_trader.Prelude.Triples.{Triple, Triple-end, Triple-bind, Keeps→Triple}
use artic_trader.Trading.Float.{FloatOps, PyError}
use artic_trader.Trading.Paper.{PaperPosition, Trigger}
use artic_trader.Trading.Session.{supervisor, triggered, line, Engine, Session}
use artic_trader.Trading.Actions.Ledger.{Holds, IsBalanced, send-IsBalanced, update-IsBalanced}
use artic_trader.Trading.Loop.{
  Feed, Verdict, keep, close_now, adjust, outside, get_current_price, refresh_candles, or_fetch,
  act_on, run_supervisor_check, supervise, act_on_signal, refresh_if_old, follow_signal,
  unless_closed, on_trigger, in_position, at_price, at_quote, round, caught, tick, trading_loop,
}
use artic_trader.Trading.Loop.Steps.{
  world-IsBalanced, lift-IsBalanced, engine-IsBalanced, kept_candles, adjust_levels-IsBalanced,
  closing-IsBalanced, act_on_signal-IsBalanced,
}

module _ {A W : Type 0} ⦃o : FloatOps A⦄ (f : Feed A W) where
  or_fetch-IsBalanced : (p : Option A) → Keeps (IsBalanced {A = A} {W = W}) (or_fetch f p)
  or_fetch-IsBalanced (some p) = record { at = λ s h. h }
  or_fetch-IsBalanced none = record {
    at = λ s h. (world-IsBalanced (f.get_price_with_retry s.engine.symbol)).at s h;
  }

  get_current_price-IsBalanced : Keeps (IsBalanced {A = A} {W = W}) (get_current_price f)
  unfolding get_current_price
  get_current_price-IsBalanced = record {
    at = λ s h. (or_fetch-IsBalanced (f.listener_price s.engine.symbol s.world)).at s h;
  }

  refresh_candles-IsBalanced : Keeps (IsBalanced {A = A} {W = W}) (refresh_candles f)
  unfolding refresh_candles
  refresh_candles-IsBalanced = record {
    at = λ s h. record {
      book = h.book;
      at = record {
        ledger = h.at.ledger;
        position =
            subst (λ (p : PaperPosition A). Holds p h.book) (sym (kept_candles _ s.engine))
              h.at.position;
      };
    };
  }

  act_on-IsBalanced :
      (v : Verdict) (price : A) → Keeps (IsBalanced {A = A} {W = W}) (act_on f v price)
  unfolding act_on
  act_on-IsBalanced keep price = Keeps-pure tt
  act_on-IsBalanced close_now price = closing-IsBalanced price supervisor
  act_on-IsBalanced adjust price =
      search (keeps_rules, engine-IsBalanced, adjust_levels-IsBalanced) depth 12

  run_supervisor_check-IsBalanced :
      (price : A) → Keeps (IsBalanced {A = A} {W = W}) (run_supervisor_check f price)
  unfolding run_supervisor_check
  run_supervisor_check-IsBalanced price =
      search
        (
          keeps_rules, engine-IsBalanced, lift-IsBalanced, world-IsBalanced, send-IsBalanced,
          act_on-IsBalanced,
        )
        depth 30

  supervise-IsBalanced : (price : A) → Keeps (IsBalanced {A = A} {W = W}) (supervise f price)
  unfolding supervise
  supervise-IsBalanced price =
      search (keeps_rules, engine-IsBalanced, run_supervisor_check-IsBalanced, update-IsBalanced)
        depth 30

  refresh_if_old-IsBalanced : Keeps (IsBalanced {A = A} {W = W}) (refresh_if_old f)
  unfolding refresh_if_old
  refresh_if_old-IsBalanced =
      search (keeps_rules, engine-IsBalanced, refresh_candles-IsBalanced, update-IsBalanced) depth
        30

  signal-IsBalanced :
      (e : Engine A) (price : A)
      → Triple
          (λ (s : Session A W). IsBalanced s × (s.engine ≡ e))
          (outside (f.compute_strategy_signal e.strategy_plan e.price_history e.candle_cache)
            >>= act_on_signal e price)
          (λ a. IsBalanced)
          IsBalanced
  signal-IsBalanced e price =
      Triple-bind
        (outside (f.compute_strategy_signal e.strategy_plan e.price_history e.candle_cache))
        (act_on_signal e price)
        (Keeps→Triple
          (outside (f.compute_strategy_signal e.strategy_plan e.price_history e.candle_cache))
          (record {
            at = λ s h. (
              (world-IsBalanced
                    (f.compute_strategy_signal e.strategy_plan e.price_history e.candle_cache)).at
                  s h.0,
              h.1,
            );
          })
          (λ s h. h.0))
        (act_on_signal-IsBalanced e price)

  follow_signal-IsBalanced :
      (price : A) → Keeps (IsBalanced {A = A} {W = W}) (follow_signal f price)
  unfolding follow_signal
  follow_signal-IsBalanced price = Keeps-bind (refresh_if_old f) _ refresh_if_old-IsBalanced (λ _.
      record {
        at = λ s h.
            Triple-end IsBalanced
              (outside (
                  f.compute_strategy_signal s.engine.strategy_plan s.engine.price_history
                    s.engine.candle_cache)
                >>= act_on_signal s.engine price)
              (signal-IsBalanced s.engine price) s (h, refl);
      })

  unless_closed-IsBalanced :
      (price : A) → Keeps (IsBalanced {A = A} {W = W}) (unless_closed f price)
  unfolding unless_closed
  unless_closed-IsBalanced price =
      search (keeps_rules, engine-IsBalanced, follow_signal-IsBalanced) depth 20

  on_trigger-IsBalanced :
      (hit : Option Trigger) (price : A)
      → Keeps (IsBalanced {A = A} {W = W}) (on_trigger f hit price)
  unfolding on_trigger
  on_trigger-IsBalanced none price =
      search (keeps_rules, supervise-IsBalanced, unless_closed-IsBalanced) depth 20
  on_trigger-IsBalanced (some t) price =
      Keeps-bind _ _ (send-IsBalanced (line "sl_tp") tt)
        (λ _. closing-IsBalanced price (triggered t))

  in_position-IsBalanced : (price : A) → Keeps (IsBalanced {A = A} {W = W}) (in_position f price)
  unfolding in_position
  in_position-IsBalanced price =
      search (keeps_rules, engine-IsBalanced, lift-IsBalanced, on_trigger-IsBalanced) depth 20

  at_price-IsBalanced : (price : A) → Keeps (IsBalanced {A = A} {W = W}) (at_price f price)
  unfolding at_price
  at_price-IsBalanced price =
      search
        (
          keeps_rules, engine-IsBalanced, update-IsBalanced, in_position-IsBalanced,
          follow_signal-IsBalanced,
        )
        depth 20

  at_quote-IsBalanced : (quote : Option A) → Keeps (IsBalanced {A = A} {W = W}) (at_quote f quote)
  at_quote-IsBalanced none = send-IsBalanced (line "error") tt
  at_quote-IsBalanced (some price) = at_price-IsBalanced price

  round-IsBalanced : Keeps (IsBalanced {A = A} {W = W}) (round f)
  unfolding round
  round-IsBalanced =
      search (keeps_rules, update-IsBalanced, get_current_price-IsBalanced, at_quote-IsBalanced)
        depth 20

  caught-IsBalanced : (r : Result PyError Unit) → Keeps (IsBalanced {A = A} {W = W}) (caught r)
  caught-IsBalanced (ok _) = record { at = λ s h. h }
  caught-IsBalanced (err _) = send-IsBalanced (line "error") tt

  tick-IsBalanced : (s : Session A W) → IsBalanced s → IsBalanced (tick f s)
  unfolding tick
  tick-IsBalanced s h = (caught-IsBalanced (round f s).0).at _ (round-IsBalanced.at s h)

  -- Any number of rounds of the loop, from a session whose calls to log a trade on-chain alternate
  -- openings and closings, each closing with the side and entry price of the opening before it, and
  -- leave open just the position on hand, leads to one of which the same is true: whatever the prices,
  -- the signals, the verdicts and the exceptions of the calls outside. It is about the calls that the
  -- engine makes, not about what the logger writes.
  pub trading_loop-IsBalanced :
      (rounds : ℕ) (s : Session A W) → IsBalanced s → IsBalanced (trading_loop f rounds s)
  unfolding trading_loop
  trading_loop-IsBalanced zero s h = h
  trading_loop-IsBalanced (suc rounds) s h =
      if_both IsBalanced s.engine.running _ s
        (trading_loop-IsBalanced rounds (tick f s) (tick-IsBalanced s h)) h
