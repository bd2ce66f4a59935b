-- ===== src/Trading/Start/Begun.antt =====
-- What a start of app/engine.py leaves: what it takes from the request, and what it takes over from
-- the engine's last session.
use mathlib.Core.Bool.{true≢false}
use mathlib.Core.Path.{subst}
use artic_trader.Prelude.{
  ℕ, Bool, true, false, Option, none, some, List, ◌≡◌, ◌≢◌, refl, sym, ◌∙◌, ap, if◌then◌else◌,
}
use artic_trader.Prelude.Exec.{Result, Keeps-if, ◌>>◌}
use artic_trader.Prelude.Triples.{Triple, Triple-bind, Keeps→Triple, Triple-end}
use artic_trader.Trading.Float.{FloatOps, PyError}
use artic_trader.Trading.Paper.{PaperPosition}
use artic_trader.Trading.Session.{Event, line, Engine, Session}
use artic_trader.Trading.Actions.{send, update, when}
use artic_trader.Trading.Loop.{Feed, append_history, engine, outside}
use artic_trader.Trading.Start.{
  StartRequest, Setup, interval_of, configured, plan_session, default_sl, equip, launch, with_price,
  begin, start,
}
use artic_trader.Trading.Start.Stable.{IsStable, On, outside-On, equip-On, plan_session-On}

module _ {A : Type 0} ⦃o : FloatOps A⦄ (r : StartRequest A) (e₀ : Engine A) where
  -- The engine takes its prices up to now, its position and the tick of its last refresh of candles
  -- over from the session before, whatever symbol that was for.
  pub record IsBegun (e : Engine A) : Type 0 where
    pub price : A
    pub last_price : e.last_price ≡ some price
    pub price_history : e.price_history ≡ append_history e₀.price_history price
    pub position : e.position ≡ e₀.position
    pub last_refresh : e.last_candle_refresh_tick ≡ e₀.last_candle_refresh_tick
    pub interval : e.supervisor_interval_seconds ≡ interval_of r.supervisor_interval_seconds
    pub sl_pct : e.sl_pct ≢ none
    pub tick_count : e.tick_count ≡ 0

  -- The engine before it has a price, after that, and with a stop-loss.
  record IsPrepared (e : Engine A) : Type 0 where
    pub halted : e.running ≡ false
    pub history : e.price_history ≡ e₀.price_history
    pub position : e.position ≡ e₀.position
    pub last_refresh : e.last_candle_refresh_tick ≡ e₀.last_candle_refresh_tick
    pub interval : e.supervisor_interval_seconds ≡ interval_of r.supervisor_interval_seconds

  -- On the attributes that the rest of a start leaves alone.
  record IsPricedBy (running : Bool) (last_price : Option A) (history : List A)
      (position : PaperPosition A) (refresh : ℕ) (interval : A) : Type 0 where
    pub price : A
    pub halted : running ≡ false
    pub last_price_eq : last_price ≡ some price
    pub history_eq : history ≡ append_history e₀.price_history price
    pub position_eq : position ≡ e₀.position
    pub refresh_eq : refresh ≡ e₀.last_candle_refresh_tick
    pub interval_eq : interval ≡ interval_of r.supervisor_interval_seconds

  abbrev IsPriced : Engine A → Type 0
  IsPriced e =
      IsPricedBy e.running e.last_price e.price_history e.position e.last_candle_refresh_tick
        e.supervisor_interval_seconds

  record IsArmed (e : Engine A) : Type 0 where
    pub priced : IsPriced e
    pub sl_pct : e.sl_pct ≢ none

  abbrev WhenRunning : Engine A → Type 0
  WhenRunning e = e.running ≡ true → IsBegun e

  halted-when : (e : Engine A) → e.running ≡ false → WhenRunning e
  halted-when e h run = absurd (true≢false (sym run ∙ h))

module _ {A W : Type 0} ⦃o : FloatOps A⦄ (f : Feed A W) (g : Setup A W) (r : StartRequest A) where
  module _ (e₀ : Engine A) where
    IsPriced-stable : IsStable (IsPriced r e₀)
    IsPriced-stable = record { candles = λ e cs h. h; plan = λ e p h. h }

    IsArmed-stable : IsStable (IsArmed r e₀)
    IsArmed-stable = record {
      candles =
          λ e cs h. record { priced = IsPriced-stable.candles e cs h.priced; sl_pct = h.sl_pct };
      plan = λ e p h. record { priced = IsPriced-stable.plan e p h.priced; sl_pct = h.sl_pct };
    }

    abbrev Done : Session A W → Type 0
    Done s = WhenRunning r e₀ s.engine

    IsPriced-Done : (s : Session A W) → IsPriced r e₀ s.engine → Done s
    IsPriced-Done s h = halted-when r e₀ s.engine h.halted

    launch-Triple : Triple (On (IsArmed r e₀)) (launch f g r) (λ a. Done) Done
    launch-Triple = record {
      at = λ s h run. record {
        price = h.priced.price;
        last_price = h.priced.last_price_eq;
        price_history = h.priced.history_eq;
        position = h.priced.position_eq;
        last_refresh = h.priced.refresh_eq;
        interval = h.priced.interval_eq;
        sl_pct = h.sl_pct;
        tick_count = refl;
      };
    }

    IsArmed-Triple : Triple (On (IsArmed r e₀)) (equip f g r >> launch f g r) (λ a. Done) Done
    IsArmed-Triple =
        Triple-bind _ _
          (Keeps→Triple (equip f g r) (equip-On f g r _ IsArmed-stable)
            (λ s h. IsPriced-Done s h.priced))
          (λ _. launch-Triple)

    default_sl-Triple :
        (sl : Option A)
        → Triple
            (λ (s : Session A W). IsPriced r e₀ s.engine × (s.engine.sl_pct ≡ sl))
            (default_sl f g r sl)
            (λ a. On (IsArmed r e₀))
            Done
    default_sl-Triple none = record { at = λ s h. record { priced = h.0; sl_pct = λ e. cc } }
    default_sl-Triple (some x) = record { at = λ s h. record { priced = h.0; sl_pct = λ e. cc } }

    with_price-Triple :
        (quote : Option A) → Triple (On (IsPrepared r e₀)) (with_price f g r quote) (λ a. Done) Done
    unfolding with_price
    with_price-Triple none = record { at = λ s h. halted-when r e₀ s.engine h.halted }
    with_price-Triple (some price) = Triple-bind _ _ priced (λ _.
        Triple-bind _ _
          (Keeps→Triple (plan_session f g r) (plan_session-On f g r _ IsPriced-stable)
            IsPriced-Done)
          (λ _.
            Triple-bind _ _ engine-Triple
              (λ e. Triple-bind _ _ (default_sl-Triple e.sl_pct) (λ _. IsArmed-Triple))))
      where
        priced :
            Triple
              (On (IsPrepared r e₀))
              (update (λ e. record e {
                last_price = some price;
                price_history = append_history e.price_history price;
              }))
              (λ a. On (IsPriced r e₀))
              Done
        priced = record {
          at = λ s h. record {
            price = price;
            halted = h.halted;
            last_price_eq = refl;
            history_eq = ap (λ l. append_history l price) h.history;
            position_eq = h.position;
            refresh_eq = h.last_refresh;
            interval_eq = h.interval;
          };
        }

        engine-Triple :
            Triple
              (On (IsPriced r e₀))
              engine
              (λ e (s : Session A W). IsPriced r e₀ s.engine × (s.engine.sl_pct ≡ e.sl_pct))
              Done
        engine-Triple = record { at = λ s h. (h, refl) }

    begin-Triple :
        Triple
          (λ (s : Session A W). (s.engine ≡ e₀) × (e₀.running ≡ false))
          (begin f g r)
          (λ a. Done)
          Done
    unfolding begin configured
    begin-Triple = Triple-bind _ _ noted (λ _. Triple-bind _ _ set (λ _.
        Triple-bind _ _ (sent (line "init")) (λ _.
          Triple-bind _ _ (sent (line "init"))
            (λ _. Triple-bind _ _ got (λ e. Triple-bind _ _ (asked e) with_price-Triple)))))
      where
        Start : Session A W → Type 0
        Start s = (s.engine ≡ e₀) × (e₀.running ≡ false)

        noted : Triple Start (when r.live_mode (send (line "init"))) (λ a. Start) Done
        noted =
            Keeps→Triple _
              (Keeps-if r.live_mode _ _ (record { at = λ s h. h }) (record { at = λ s h. h }))
              (λ s h. halted-when r e₀ s.engine (subst (λ e. e.running ≡ false) (sym h.0) h.1))

        set : Triple Start (update (configured f g r)) (λ a. On (IsPrepared r e₀)) Done
        set = record {
          at = λ s h. record {
            halted = ap (λ e. e.running) h.0 ∙ h.1;
            history = ap (λ e. e.price_history) h.0;
            position = ap (λ e. e.position) h.0;
            last_refresh = ap (λ e. e.last_candle_refresh_tick) h.0;
            interval = refl;
          };
        }

        got : Triple (On (IsPrepared r e₀)) engine (λ e. On (IsPrepared r e₀)) Done
        got = record { at = λ s h. h }

        asked :
            (e : Engine A)
            → Triple
                (On (IsPrepared r e₀))
                (outside (f.get_price_with_retry e.symbol))
                (λ q. On (IsPrepared r e₀))
                Done
        asked e = Keeps→Triple _ (outside-On _ _) (λ s h. halted-when r e₀ s.engine h.halted)

        sent :
            (ev : Event A)
            → Triple (On (IsPrepared r e₀)) (send ev) (λ a. On (IsPrepared r e₀)) Done
        sent ev = record { at = λ s h. h }

  -- A start of an engine that is not running, if it leaves it running, leaves it with a price, a
  -- stop-loss, the supervisor's interval as the request and the least of thirty seconds give it, and the
  -- count of ticks at zero; its prices before that one, its position and the tick of its last refresh of candles
  -- are those of the session before, whatever symbol that was for.
  pub start-IsBegun :
      (s : Session A W)
      → s.engine.running ≡ false
      → (start f g r s).1.engine.running ≡ true
      → IsBegun r s.engine (start f g r s).1.engine
  unfolding start
  start-IsBegun s halt run =
      subst (λ b. Claim ((if b then send (line "warn") else begin f g r) s)) (sym halt) begun run
    where
      Claim : Result PyError Unit × Session A W → Type 0
      Claim x = WhenRunning r s.engine x.1.engine

      begun : Claim (begin f g r s)
      begun = Triple-end (Done s.engine) (begin f g r) (begin-Triple s.engine) s (refl, halt)
