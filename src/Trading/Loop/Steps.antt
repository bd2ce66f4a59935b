-- ===== src/Trading/Loop/Steps.antt =====
-- app/engine.py: the steps of a round that make no call outside, and the ledger of the run.
use mathlib.Core.Path.{subst}
use artic_trader.Prelude.{◌≡◌, refl, sym, none, some, List, [], ◌∷◌, if_both}
use artic_trader.Prelude.Exec.{Result, ok, err, Keeps, keeps_rules, ◌>>=◌}
use artic_trader.Prelude.Results.{lift}
use artic_trader.Prelude.Triples.{Triple-same, Triple, Triple-bind, Keeps→Triple}
use artic_trader.Trading.Float.{FloatOps, PyError}
use artic_trader.Trading.Paper.{
  PositionSide, long, short, flat, PaperPosition, update_dynamic_tp_sl,
}
use artic_trader.Trading.Session.{Action, Candle, Reason, Engine, Session}
use artic_trader.Trading.Compute.{decide, decide_action}
use artic_trader.Trading.Actions.{Step, update, execute_action}
use artic_trader.Trading.Actions.Ledger.{Book, Holds, IsBalanced, send-IsBalanced}
use artic_trader.Trading.Actions.Balance.{IsSafe, execute_action-IsBalanced}
use artic_trader.Trading.Loop.{
  outside, engine, keep_candles, adjust_levels, execute_decision, report_round, act_on_signal,
}

module _ {A W : Type 0} where
  -- A step that leaves the engine and the log alone.
  pub world-IsBalanced :
      {B : Type 0} (call : W → Result PyError B × W)
      → Keeps IsBalanced (outside {A = A} {W = W} call)
  world-IsBalanced call = record {
    at = λ s h. record {
      book = h.book;
      at = record { ledger = h.at.ledger; position = h.at.position };
    };
  }

  pub lift-IsBalanced :
      {B : Type 0} (r : Result PyError B) → Keeps (IsBalanced {A = A} {W = W}) (lift r)
  lift-IsBalanced r = record { at = λ s h. h }

  pub engine-IsBalanced :
      {B : Type 0} (m : Engine A → Step A W B)
      → ((e : Engine A) → Keeps IsBalanced (m e))
      → Keeps IsBalanced (engine >>= m)
  engine-IsBalanced m k = record { at = λ s h. (k s.engine).at s h }

module _ {A : Type 0} where
  pub leveled :
      (tp sl : A) (b : Book A) (pos : PaperPosition A)
      → Holds pos b
      → Holds (update_dynamic_tp_sl tp sl pos) b
  unfolding update_dynamic_tp_sl
  leveled tp sl none pos h = h
  leveled tp sl (some (side, entry)) pos h = h

  pub kept_candles :
      (r : Result PyError (List (Candle A))) (e : Engine A)
      → (keep_candles r e).position ≡ e.position
  kept_candles (ok (c ∷ cs)) e = refl
  kept_candles (ok []) e = refl
  kept_candles (err _) e = refl

module _ {A W : Type 0} ⦃o : FloatOps A⦄ where
  pub leveled-IsBalanced :
      (tp sl : A)
      → Keeps
          (IsBalanced {A = A} {W = W})
          (update (λ e. record e { position = update_dynamic_tp_sl tp sl e.position }))
  leveled-IsBalanced tp sl = record {
    at = λ s h. record {
      book = h.book;
      at = record {
        ledger = h.at.ledger;
        position = leveled tp sl h.book s.engine.position h.at.position;
      };
    };
  }

  pub adjust_levels-IsBalanced : Keeps (IsBalanced {A = A} {W = W}) adjust_levels
  unfolding adjust_levels
  adjust_levels-IsBalanced =
      search (keeps_rules, engine-IsBalanced, lift-IsBalanced, leveled-IsBalanced, send-IsBalanced)
        depth 24

module _ {A : Type 0} ⦃o : FloatOps A⦄ where
  -- A decision to open a position is taken only where the engine has none.
  pub decide-IsSafe :
      (side : PositionSide) (threshold signal : A) → IsSafe (decide side threshold signal).0 side
  unfolding decide
  decide-IsSafe flat threshold signal =
      if_both (λ (d : Action × Reason). IsSafe d.0 flat) (o.lt threshold signal) _ _ refl
        (if_both (λ (d : Action × Reason). IsSafe d.0 flat) (o.lt signal (o.neg threshold)) _ _ refl
          tt)
  decide-IsSafe long threshold signal =
      if_both (λ (d : Action × Reason). IsSafe d.0 long) (o.lt signal (o.neg threshold)) _ _ tt tt
  decide-IsSafe short threshold signal =
      if_both (λ (d : Action × Reason). IsSafe d.0 short) (o.lt threshold signal) _ _ tt tt

module _ {A W : Type 0} ⦃o : FloatOps A⦄ where
  pub closing-IsBalanced :
      (price : A) (reason : Reason)
      → Keeps (IsBalanced {A = A} {W = W}) (execute_action Action.close price reason)
  closing-IsBalanced price reason = record {
    at = λ s h. execute_action-IsBalanced Action.close price reason s tt h;
  }

  pub execute_decision-IsBalanced :
      (action : Action) (price : A) (reason : Reason) (s : Session A W)
      → IsSafe action s.engine.position.side
      → IsBalanced s
      → IsBalanced (execute_decision action price reason s).1
  unfolding execute_decision
  execute_decision-IsBalanced Action.hold price reason s e h = h
  execute_decision-IsBalanced Action.open_long price reason s e h =
      execute_action-IsBalanced Action.open_long price reason s e h
  execute_decision-IsBalanced Action.open_short price reason s e h =
      execute_action-IsBalanced Action.open_short price reason s e h
  execute_decision-IsBalanced Action.close price reason s e h =
      execute_action-IsBalanced Action.close price reason s e h

  pub report_round-IsBalanced :
      (price : A) → Keeps (IsBalanced {A = A} {W = W}) (report_round price)
  unfolding report_round
  report_round-IsBalanced price =
      search (keeps_rules, engine-IsBalanced, lift-IsBalanced, send-IsBalanced) depth 40

  -- The state that the decision was taken in is the one that it is carried out in.
  pub act_on_signal-IsBalanced :
      (e : Engine A) (price signal : A)
      → Triple
          (λ (s : Session A W). IsBalanced s × (s.engine ≡ e))
          (act_on_signal e price signal)
          (λ a. IsBalanced)
          IsBalanced
  unfolding act_on_signal decide_action
  act_on_signal-IsBalanced e price signal =
      let decided = decide_action e signal in
      Triple-bind (execute_decision decided.0 price decided.1) (λ _. report_round price)
        (Triple-same IsBalanced (execute_decision decided.0 price decided.1) (λ s h.
          execute_decision-IsBalanced decided.0 price decided.1 s
            (subst (λ (e' : Engine A). IsSafe decided.0 e'.position.side) (sym h.1)
              (decide-IsSafe e.position.side e.strategy_plan.threshold signal))
            h.0))
        (λ _. Keeps→Triple (report_round price) (report_round-IsBalanced price) (λ s h. h))
