-- ===== src/Trading/Actions/Closing.antt =====
-- app/engine.py: how a closing of `_execute_action` may end.
use mathlib.Core.Bool.{true≢false}
use artic_trader.Prelude.{some, ◌≡◌, refl, sym, ◌∙◌, Bool, true, false, if◌then◌else◌}
use artic_trader.Prelude.Exec.{◌>>◌}
use artic_trader.Prelude.Triples.{Post, Triple, Triple-lift, Triple-if, Triple-bind}
use artic_trader.Trading.Float.{FloatOps}
use artic_trader.Trading.Paper.{is_flat, empty, close, unrealized_pnl}
use artic_trader.Trading.Session.{
  Action, Reason, Event, trade_closed, logged_close, close_requested, line, Engine, Session,
}
use artic_trader.Trading.Actions.{
  Step, send, update, skip, when, has_agent, is_live, pnl_bps, or_zero, or_one, close_out, settle,
  execute_close, execute_action,
}

abbrev Anything : {S : Type 0} → S → Type 0
Anything s = Unit {0}

abbrev pub IsEmpty : {A W : Type 0} → Session A W → Type 0
IsEmpty s = s.engine.position ≡ empty

module _ {A W : Type 0} {R : Session A W → Type 0} where
  sends : (ev : Event A) → Triple Anything (send ev) (λ a. Anything) R
  sends ev = record { at = λ s h. tt }

  when_sends :
      (t : Bool) (m : Step A W Unit)
      → Triple Anything m (λ a. Anything) R
      → Triple Anything (when t m) (λ a. Anything) R
  when_sends true m h = h
  when_sends false m h = record { at = λ s k. tt }

  and_then :
      {Q : Session A W → Type 0} (m n : Step A W Unit)
      → Triple Anything m (λ a. Anything) R
      → Triple Anything n (λ a. Q) R
      → Triple Anything (m >> n) (λ a. Q) R
  and_then m n h k = Triple-bind m (λ _. n) h (λ _. k)

  emptied :
      Triple Anything (update (λ e. record e { position = close e.position })) (λ a. IsEmpty) R
  unfolding close
  emptied = record { at = λ s h. refl }

module _ {A W : Type 0} ⦃o : FloatOps A⦄ {R : Session A W → Type 0} where
  close_out-IsEmpty :
      (e : Engine A) (price : A) (reason : Reason) (pnl bps : A)
      → Triple Anything (close_out e price reason pnl bps) (λ a. IsEmpty) R
  unfolding close_out
  close_out-IsEmpty e price reason pnl bps = and_then _ _ (sends (line "action")) (
      and_then _ _ (sends (line "action")) (
        and_then _ _
          (when_sends (has_agent e) _ (
            sends (
              trade_closed e.position.side e.position.entry_price price pnl e.position.size_usdt
                e.position.leverage reason)))
          (and_then _ _ (sends (logged_close e.position.side e.position.entry_price price bps)) (
            and_then _ _
              (when_sends (is_live e) _ (
                and_then _ _ (and_then _ _ (sends close_requested) (sends (line "warn")))
                  (sends (line "action"))))
              emptied))))

  close_out_any :
      (P : Session A W → Type 0) (e : Engine A) (price : A) (reason : Reason) (pnl bps : A)
      → Triple P (close_out e price reason pnl bps) (λ a. IsEmpty) R
  close_out_any P e price reason pnl bps = record {
    at = λ s h. (close_out-IsEmpty e price reason pnl bps).at s tt;
  }

module _ {A W : Type 0} ⦃o : FloatOps A⦄ where
  settle_ends :
      (s : Session A W) (e : Engine A) (price : A) (reason : Reason)
      → Triple (λ s'. s' ≡ s) (settle e price reason) (λ a. IsEmpty) (λ s'. s' ≡ s)
  unfolding settle
  settle_ends s e price reason =
      Triple-bind _ _ (Triple-lift (unrealized_pnl e.position price) (λ s' h. h)) (λ pnl.
        Triple-bind _ _
          (Triple-lift
            (pnl_bps pnl (o.mul (or_zero e.position.size_usdt) (or_one e.position.leverage)))
            (λ s' h. h))
          (λ bps. close_out_any (λ s'. s' ≡ s) e price reason pnl bps))

  execute_close_ends :
      (price : A) (reason : Reason) (s : Session A W)
      → is_flat s.engine.position.side ≡ false
      → Post (λ a s'. IsEmpty s') (λ s'. s' ≡ s) (execute_close price reason s)
  unfolding execute_close
  execute_close_ends price reason s ne = once.at s refl
    where
      once :
          Triple
            (λ s'. s' ≡ s)
            (if is_flat s.engine.position.side then skip else settle s.engine price reason)
            (λ a. IsEmpty)
            (λ s'. s' ≡ s)
      once =
          Triple-if (is_flat s.engine.position.side) skip (settle s.engine price reason)
            (λ on. absurd (true≢false (sym on ∙ ne))) (λ _. settle_ends s s.engine price reason)

  -- The session in which a closing is on record as the last action, and nothing else has changed.
  abbrev pub noted : Reason → Session A W → Session A W
  noted reason s = record s {
    engine = record s.engine { last_action = some Action.close; last_reason = some reason };
  }

  -- The action CLOSE, with a position on hand, either returns with the position empty, or raises with the
  -- session as it was but for the last action and its reason: nothing has been sent, and the position
  -- is still there.
  pub execute_action_ends :
      (price : A) (reason : Reason) (s : Session A W)
      → is_flat s.engine.position.side ≡ false
      → Post
          (λ a s'. IsEmpty s')
          (λ s'. s' ≡ noted reason s)
          (execute_action Action.close price reason s)
  unfolding execute_action
  execute_action_ends price reason s ne = execute_close_ends price reason (noted reason s) ne
