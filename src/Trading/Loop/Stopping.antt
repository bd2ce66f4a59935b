-- ===== src/Trading/Loop/Stopping.antt =====
-- app/engine.py: what `stop` does to the ledger of the run.
use mathlib.Core.Bool.{true≢false}
use artic_trader.Prelude.{
  sym, ◌∙◌, ◌≡◌, refl, Bool, if◌then◌else◌, true, false, not, ◌&&◌, Option, none, some,
}
use artic_trader.Prelude.Exec.{Result, ok, err, ◌>>◌}
use artic_trader.Prelude.Results.{lift}
use artic_trader.Prelude.Triples.{Post, Triple, Triple-if, Triple-bind, Post-ok}
use artic_trader.Trading.Float.{FloatOps, PyError, truthy}
use artic_trader.Trading.Paper.{is_flat, close, unrealized_pnl}
use artic_trader.Trading.Session.{close_requested, line, Engine, Session}
use artic_trader.Trading.Actions.{skip, send, update, when, is_live}
use artic_trader.Trading.Actions.Ledger.{Book, At, send_aside, skip_aside, when_aside, then_aside}
use artic_trader.Trading.Loop.{Feed, outside, report_final, close_at_stop, halt, stop}

abbrev Anything : {S : Type 0} → S → Type 0
Anything s = Unit {0}

module _ {A W : Type 0} {b c : Book A} where
  lift_aside :
      {B : Type 0} (r : Result PyError B)
      → Triple (At {W = W} b c) (lift r) (λ x. At {W = W} b c) Anything
  lift_aside (ok x) = record { at = λ s h. h }
  lift_aside (err e) = record { at = λ s h. tt }

  emptied :
      Triple
        (At {W = W} b c)
        (update (λ e. record e { position = close e.position }))
        (λ x. At b none)
        Anything
  unfolding close
  emptied = record { at = λ s h. record { ledger = h.ledger; position = refl } }

  halted :
      Triple
        (At {W = W} b c)
        (update (λ e. record e { running = false }))
        (λ x. At {W = W} b c)
        Anything
  halted = record { at = λ s h. record { ledger = h.ledger; position = h.position } }

module _ {A W : Type 0} ⦃o : FloatOps A⦄ (f : Feed A W) {b c : Book A} where
  Post-outside :
      {B : Type 0} (r : Result PyError B) (s : Session A W)
      → At b c s
      → Post (λ x. At b c) Anything (r, s)
  Post-outside (ok x) s h = h
  Post-outside (err e) s h = tt

  outside_aside :
      {B : Type 0} (call : W → Result PyError B × W)
      → Triple (At b c) (outside call) (λ x. At b c) Anything
  outside_aside call = record {
    at = λ s h.
        Post-outside (call s.world).0 _ (record { ledger = h.ledger; position = h.position });
  }

  report_final_aside :
      (e : Engine A) (price : Option A)
      → Triple (At b c) (report_final f e price) (λ x. At b c) Anything
  report_final_aside e none = skip_aside
  report_final_aside e (some price) = when_aside (truthy price) _ (
      Triple-bind (lift (unrealized_pnl e.position price) >> send (line "stop"))
        (λ _. send (line "stop"))
        (Triple-bind (lift (unrealized_pnl e.position price)) (λ _. send (line "stop"))
          (lift_aside (unrealized_pnl e.position price)) (λ _. send_aside (line "stop") tt))
        (λ _. send_aside (line "stop") tt))

  close_at_stop_aside :
      (e : Engine A) → Triple (At b c) (close_at_stop f e) (λ x. At b none) Anything
  unfolding close_at_stop
  close_at_stop_aside e =
      Triple-bind (outside (f.get_price e.symbol)) _ (outside_aside (f.get_price e.symbol))
        (λ price. Triple-bind (report_final f e price) _ (report_final_aside e price) (λ _.
          then_aside _ _
            (when_aside (is_live e) _ (
              then_aside _ _
                (then_aside _ _ (send_aside close_requested tt) (send_aside (line "warn") tt))
                (send_aside (line "stop") tt)))
            emptied))

  when_close :
      (t : Bool) (e : Engine A)
      → t ≡ true
      → Triple (At b c) (when t (close_at_stop f e)) (λ x. At b none) Anything
  when_close true e q = close_at_stop_aside e
  when_close false e q = cc

module _ {A W : Type 0} ⦃o : FloatOps A⦄ (f : Feed A W) where
  halt-At :
      {b c : Book A} (e : Engine A)
      → is_flat e.position.side ≡ false
      → Triple (At b c) (halt f true e) (λ x. At b none) Anything
  unfolding halt
  halt-At {b} {c} e ne = then_aside _ _ (send_aside (line "stop") tt) (
      then_aside _ _ halted (
        then_aside _ _ (when_close f (true && not (is_flat e.position.side)) e (rw ne refl))
          (send_aside (line "stop") tt)))

  -- A call of `stop` that closes a position, and returns, reports no closing: the log of on-chain
  -- trades still leaves open what it left open before, and there is no position.
  pub stop-At :
      (b : Book A) (s : Session A W)
      → At b b s
      → s.engine.running ≡ true
      → is_flat s.engine.position.side ≡ false
      → (stop f true s).0 ≡ ok tt
      → At b none (stop f true s).1
  unfolding stop
  stop-At b s h run ne returned = Post-ok (At b none) Anything _ _ (once.at s h) returned
    where
      once :
          Triple
            (At b b)
            (if s.engine.running then halt f true s.engine else skip)
            (λ x. At b none)
            Anything
      once =
          Triple-if s.engine.running (halt f true s.engine) skip (λ _. halt-At s.engine ne)
            (λ off. absurd (true≢false (sym run ∙ off)))
