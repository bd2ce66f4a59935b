-- ===== src/Trading/Start/Stable.antt =====
-- What the planning and the equipment of a start leave as it is: app/engine.py.
use artic_trader.Prelude.{String, Option, none, some, List, [], ◌∷◌}
use artic_trader.Prelude.Exec.{Result, ok, err, Keeps, keeps_rules, Keeps-bind}
use artic_trader.Trading.Float.{FloatOps, PyError}
use artic_trader.Trading.Session.{StrategyPlan, Candle, Event, line, Engine, Session}
use artic_trader.Trading.Actions.{send, update}
use artic_trader.Trading.Loop.{Feed, outside, refresh_candles, keep_candles}
use artic_trader.Trading.Start.{
  StartRequest, MarketSummary, Setup, line_if, tell, tell_indicators, plan_of, analyse,
  plan_session, listen, equip, get_default_strategy,
}

-- What neither new candles nor a new plan change.
pub record IsStable {A : Type 0} (P : Engine A → Type 0) : Type 0 where
  pub candles : (e : Engine A) (cs : List (Candle A)) → P e → P (record e { candle_cache = cs })
  pub plan : (e : Engine A) (p : StrategyPlan A) → P e → P (record e { strategy_plan = p })

module _ {A W : Type 0} (P : Engine A → Type 0) where
  abbrev pub On : Session A W → Type 0
  On s = P s.engine

  send-On : (ev : Event A) → Keeps On (send ev)
  send-On ev = record { at = λ s h. h }

  pub outside-On : {B : Type 0} (call : W → Result PyError B × W) → Keeps On (outside call)
  outside-On call = record { at = λ s h. h }

  update-On : (f : Engine A → Engine A) → ((e : Engine A) → P e → P (f e)) → Keeps On (update f)
  update-On f k = record { at = λ s h. k s.engine h }

module _ {A W : Type 0} ⦃o : FloatOps A⦄ (f : Feed A W) (g : Setup A W) (r : StartRequest A) where
  module _ (P : Engine A → Type 0) (stable : IsStable P) where
    plan_of-On : (result : Result PyError (StrategyPlan A)) → Keeps (On P) (plan_of f g r result)
    plan_of-On (ok plan) = update-On P _ (λ e h. stable.plan e plan h)
    plan_of-On (err x) = Keeps-bind _ _ (send-On P (line "warn")) (λ _.
        update-On P _ (λ e h. stable.plan e (get_default_strategy (g.lower r.risk_profile)) h))

    analyse-On : (summary : Option (MarketSummary A)) → Keeps (On P) (analyse f g r summary)
    unfolding analyse
    analyse-On summary = record { at = λ s h. (plan_of-On _).at _ h }

    line_if-On : (x : Option A) → Keeps (On {W = W} P) (line_if f g r x)
    line_if-On none = record { at = λ s h. h }
    line_if-On (some x) = send-On P (line "init")

    tell-On : (summary : Option (MarketSummary A)) → Keeps (On {W = W} P) (tell f g r summary)
    tell-On none = record { at = λ s h. h }
    tell-On (some m) = search (keeps_rules, line_if-On) depth 5

    refresh_candles-On : Keeps (On P) (refresh_candles f)
    unfolding refresh_candles
    refresh_candles-On = record { at = λ s h. kept s.engine _ h }
      where
        kept : (e : Engine A) (cs : Result PyError (List (Candle A))) → P e → P (keep_candles cs e)
        kept e (ok (c ∷ cs)) h = stable.candles e (c ∷ cs) h
        kept e (ok []) h = h
        kept e (err x) h = h

    listen-On : (url : Option String) → Keeps (On P) (listen f g r url)
    listen-On none = record { at = λ s h. h }
    listen-On (some url) = search (keeps_rules, send-On, outside-On) depth 12

    pub equip-On : Keeps (On P) (equip f g r)
    unfolding equip
    equip-On = search (keeps_rules, send-On, refresh_candles-On, listen-On) depth 12

    indicators-On : (is : List String) → Keeps (On {W = W} P) (tell_indicators f g r is)
    indicators-On [] = record { at = λ s h. h }
    indicators-On (i ∷ is) = send-On P (line "llm")

    pub plan_session-On : Keeps (On P) (plan_session f g r)
    unfolding plan_session
    plan_session-On =
        search (keeps_rules, send-On, outside-On, tell-On, analyse-On, indicators-On) depth 30
