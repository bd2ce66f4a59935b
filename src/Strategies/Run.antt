-- ===== src/Strategies/Run.antt =====
-- `run` of user-server/user_server/strategies/runner.py, with the fallback of builtins.py.
use Prim.Native.String.{◌++◌ as ◌<>◌}
use artic_trader.Prelude.{
  String, Bool, true, false, Option, none, some, List, [], ◌∷◌, str_eq, present, if◌then◌else◌,
}
use artic_trader.Prelude.Exec.{Result, ok, err}
use artic_trader.Dict.{Dict, get}
use artic_trader.Trading.Float.{FloatOps}
use artic_trader.Strategies.Python.{
  Interpreter, Raised, timed_out, raised, escaped, CompileError, syntax_error, other_error,
}

abbrev pub Signal : Type 0 → Type 0
Signal A = A × String

pub record RunResult (A : Type 0) : Type 0 where
  pub signal : Signal A
  pub strategy_name : String
  pub fallback : Bool
  pub error : Option String

abbrev pub no_compute : String
no_compute = "violation: strategy missing callable `compute(plan, price_history, candles)`"

module _ {A : Type 0} ⦃o : FloatOps A⦄ (show : A → String) where
  -- The last price and the one before it.
  abbrev last_two : List A → Option (A × A)
  last_two [] = none
  last_two (x ∷ []) = none
  last_two (x ∷ y ∷ []) = some (y, x)
  last_two (x ∷ y ∷ z ∷ zs) = last_two (y ∷ z ∷ zs)

  abbrev moved : Option (A × A) → Signal A
  moved none = (o.lit 0, "insufficient history")
  moved (some (last, prev)) =
      if o.lt prev last
      then (o.lit 1, "momentum up (" <> (show prev <> ("->" <> (show last <> ")"))))
      else if o.lt last prev
      then (o.neg (o.lit 1), "momentum down (" <> (show prev <> ("->" <> (show last <> ")"))))
      else (o.lit 0, "flat")

  unfoldable pub simple_momentum : List A → Signal A
  simple_momentum price_history = moved (last_two price_history)

  abbrev pub fallback_run : List A → String → RunResult A
  fallback_run price_history error = record {
    signal = simple_momentum price_history;
    strategy_name = "simple_momentum";
    fallback = true;
    error = some error;
  }

  module _ {V Code W : Type 0} (I : Interpreter V A Code W) where
    -- locs.get("compute") or globs.get("compute")
    abbrev pub pick : Option V → Option V → Option V
    pick none second = second
    pick (some v) second = if I.truth v then some v else second

    -- The signal of a pair of a number and a text.
    abbrev pub shaped : V → Option (V × V) → Result String (Signal A)
    shaped v none = err ("violation: strategy returned bad shape: " <> I.type_name v)
    shaped v (some (x, y)) = two (I.is_number x) (I.as_text y)
      where
        two : Bool → Option String → Result String (Signal A)
        two true (some reason) = converted (I.to_float x)
          where
            converted : Option A → Result String (Signal A)
            converted none = err "error: OverflowError"
            converted (some score) = ok (score, reason)
        two _ _ = err ("violation: strategy returned bad shape: " <> I.type_name v)

    -- The outer error is what escapes `except Exception`.
    abbrev pub computed : Result Raised V → Result String (Result String (Signal A))
    computed (err timed_out) = ok (err "strategy exceeded its time")
    computed (err (raised msg)) = ok (err ("error: " <> msg))
    computed (err (escaped msg)) = err msg
    computed (ok v) = ok (shaped v (I.as_pair v))

    abbrev pub call : Option V → Result String (Result String (Signal A))
    call none = ok (err no_compute)
    call (some f) = if I.callable f then computed (I.call_compute f) else ok (err no_compute)

    abbrev pub executed : Result Raised (Dict V × Dict V) → Result String (Result String (Signal A))
    executed (err timed_out) = ok (err "strategy exceeded its time")
    executed (err (raised msg)) = ok (err ("error: " <> msg))
    executed (err (escaped msg)) = err msg
    executed (ok (locs, globs)) = call (pick (get locs "compute") (get globs "compute"))

    abbrev pub finished :
        String → List A → Result String (Result String (Signal A)) → Result String (RunResult A)
    finished name price_history (err msg) = err msg
    finished name price_history (ok (err e)) = ok (fallback_run price_history e)
    finished name price_history (ok (ok s)) =
        ok (record { signal = s; strategy_name = name; fallback = false; error = none })

    abbrev pub compiled_run :
        String → List A → Result CompileError Code → Result String (RunResult A)
    compiled_run name price_history (err (syntax_error msg)) =
        ok (fallback_run price_history ("compile: " <> msg))
    compiled_run name price_history (err (other_error msg)) = err msg
    compiled_run name price_history (ok code) =
        finished name price_history (executed (I.exec_code code))

    abbrev pub source_run : String → List A → Option String → Result String (RunResult A)
    source_run name price_history none = ok (fallback_run price_history ("no source for " <> name))
    source_run name price_history (some source) =
        compiled_run name price_history (I.compile_restricted source)

    -- `strat_name in BUILTINS and strat_source is None`, of the one builtin
    unfoldable pub run : String → Option String → List A → Result String (RunResult A)
    run name none price_history =
        if str_eq name "simple_momentum"
        then ok (record {
          signal = simple_momentum price_history;
          strategy_name = name;
          fallback = false;
          error = none;
        })
        else source_run name price_history none
    run name (some source) price_history = source_run name price_history (present (some source))
