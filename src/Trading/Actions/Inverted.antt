-- ===== src/Trading/Actions/Inverted.antt =====
-- The dynamic levels of a long position: `_compute_dynamic_tp_sl` of app/engine.py with
-- `check_tp_sl` of app/executor/paper.py.
use artic_trader.Prelude.{true, false, some, ◌≡◌, refl, Bool-cases, inl, inr}
use artic_trader.Prelude.Exec.{ok}
use artic_trader.Trading.Float.{FloatOps}
use artic_trader.Trading.Paper.{
  long, Trigger, tp_price_hit, sl_price_hit, check_tp_sl, check_prices, open_side,
}
use artic_trader.Trading.Session.{dynamic, Engine}
use artic_trader.Trading.Compute.{stop_distance, bracket, compute_dynamic_tp_sl, is_long}
use artic_trader.Trading.Actions.{opened}

module _ {A : Type 0} ⦃o : FloatOps A⦄ where
  -- A long position that is opened in dynamic mode triggers a level at any price: its take-profit is two
  -- distances below the entry, and its stop-loss one above. It is supposed that a price that is not at
  -- least the former is at most the latter, as it is for a distance that is not negative.
  pub opened-check_tp_sl :
      (e : Engine A) (price current : A)
      → e.tp_sl_mode ≡ dynamic
      → (o.le (o.sub price (o.mul (stop_distance e.candle_cache price) (o.lit 2))) current ≡ false
          → o.le current (o.add price (stop_distance e.candle_cache price)) ≡ true)
      → (t : Trigger) × (check_tp_sl (opened long price e).position current ≡ ok (some t))
  unfolding check_tp_sl check_prices open_side compute_dynamic_tp_sl bracket is_long
  opened-check_tp_sl e price current mode total =
      elim (Bool-cases
        (o.le (o.sub price (o.mul (stop_distance e.candle_cache price) (o.lit 2))) current)) [
          | inl hit ↦ (tp_price_hit, rw (mode, hit) refl)
          | inr missed ↦ (sl_price_hit, rw (mode, missed, total missed) refl)
        ]
