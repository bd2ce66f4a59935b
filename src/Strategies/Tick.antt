-- ===== src/Strategies/Tick.antt =====
-- `tick` of user-server/user_server/strategies/runner.py. Of the errors' texts the fixed part is kept.
use Prim.Native.String.{◌++◌ as ◌<>◌}
use artic_trader.Prelude.{String, not, ◌&&◌, Option, none, some, List, [], ◌∷◌, if◌then◌else◌}
use artic_trader.Prelude.Exec.{Result, ok, err}
use artic_trader.Prelude.Results.{◌>>=◌}
use artic_trader.Dict.{Dict, get}
use artic_trader.Trading.Float.{FloatOps}
use artic_trader.Strategies.Sandbox.{runtime_violation, timeout_violation, among}
use artic_trader.Strategies.Python.{
  Interpreter, Raised, timed_out, raised, escaped, uncaught, Failure, sandbox, unhashable,
  float_overflow,
}
use artic_trader.Strategies.Loader.{StrategyHandle}

abbrev pub valid_actions : List String
valid_actions = "OPEN_LONG" ∷ "OPEN_SHORT" ∷ "CLOSE" ∷ "HOLD" ∷ []

-- The dict that `tick` returns.
pub record Decision (A : Type 0) : Type 0 where
  pub action : String
  pub size : A
  pub reason : String

abbrev pub listed : Option String → Result Failure String
listed none = err (sandbox (runtime_violation "invalid action"))
listed (some s) =
    if among s valid_actions then ok s else err (sandbox (runtime_violation "invalid action"))

abbrev pub is_text : Option String → Result Failure String
is_text none = err (sandbox (runtime_violation "invalid reason"))
is_text (some s) = ok s

module _ {V A Code W : Type 0} (I : Interpreter V A Code W) where
  -- `action not in VALID_ACTIONS`: a look-up by hash
  abbrev pub checked_action : Option V → Result Failure String
  checked_action none = err (sandbox (runtime_violation "invalid action"))
  checked_action (some v) = if not (I.hashable v) then err unhashable else listed (I.as_text v)

  module _ ⦃o : FloatOps A⦄ where
    abbrev pub in_unit : Option A → Result Failure A
    in_unit none = err float_overflow
    in_unit (some x) =
        if o.le (o.lit 0) x && o.le x (o.lit 1)
        then ok x
        else err (sandbox (runtime_violation "invalid size"))

    abbrev pub checked_size : Option V → Result Failure A
    checked_size none = ok (o.lit 0)
    checked_size (some v) =
        if not (I.is_number v)
        then err (sandbox (runtime_violation "invalid size"))
        else in_unit (I.to_float v)

    abbrev pub checked_reason : Option V → Result Failure String
    checked_reason none = ok ""
    checked_reason (some v) = is_text (I.as_text v)

    abbrev pub checked_result : Option (Dict V) → Result Failure (Decision A)
    checked_result none = err (sandbox (runtime_violation "on_tick must return dict"))
    checked_result (some d) = do
      action ← checked_action (get d "action")
      size ← checked_size (get d "size")
      reason ← checked_reason (get d "reason")
      ok (record { action = action; size = size; reason = reason })

    abbrev pub called : Result Raised V → Result Failure (Decision A)
    called (err timed_out) = err (sandbox timeout_violation)
    called (err (raised msg)) = err (sandbox (runtime_violation ("on_tick raised: " <> msg)))
    called (err (escaped msg)) = err (uncaught msg)
    called (ok v) = checked_result (I.as_dict v)

    unfoldable pub tick : StrategyHandle V → V → W → Result Failure (Decision A) × W
    tick handle ctx w = let (r, w') = I.call_tick handle.on_tick ctx w in (called r, w')
