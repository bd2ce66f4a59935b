-- ===== src/Strategies/Fallback.antt =====
-- How a run of a user's `compute` ends, in user-server/user_server/strategies/runner.py.
use Prim.Native.String.{◌++◌ as ◌<>◌}
use artic_trader.Prelude.{String, true, false, none, some, List, ◌≡◌, ◌≢◌}
use artic_trader.Prelude.Exec.{Result, ok, err}
use artic_trader.Trading.Float.{FloatOps}
use artic_trader.Dict.{Dict}
use artic_trader.Strategies.Python.{Interpreter, escaped, other_error}
use artic_trader.Strategies.Run.{RunResult, simple_momentum, finished}

module _ {A : Type 0} ⦃o : FloatOps A⦄ (show : A → String) where
  -- What a result says of itself: without the fallback it carries the strategy's name and no error;
  -- with it, the name and the signal are the fallback's, and there is an error.
  pub record IsAccounted (name : String) (prices : List A) (r : RunResult A) : Type 0 where
    pub own : r.fallback ≡ false → (r.strategy_name ≡ name) × (r.error ≡ none)
    pub fallen :
        r.fallback ≡ true
        → (r.strategy_name ≡ "simple_momentum")
          × (r.signal ≡ simple_momentum show prices)
          × ((msg : String) × (r.error ≡ some msg))

  -- A run ended with a result, and it is accounted for.
  abbrev pub Ended : String → List A → Result String (RunResult A) → Type 0
  Ended name prices (ok r) = IsAccounted name prices r
  Ended name prices (err e) = ⊥

  module _ {V Code W : Type 0} (I : Interpreter V A Code W) where
    -- RestrictedPython refuses a source by a `SyntaxError` only, and the user's code raises nothing that
    -- is no `Exception`.
    pub record IsContained : Type 0 where
      pub compiles : (s msg : String) → I.compile_restricted s ≢ err (other_error msg)
      pub executes : (code : Code) (msg : String) → I.exec_code code ≢ err (escaped msg)
      pub computes : (f : V) (msg : String) → I.call_compute f ≢ err (escaped msg)

  module _ {V Code W : Type 0} (I : Interpreter V A Code W) (contained : IsContained I)
      (name : String) (prices : List A) where
    abbrev Finishes : Result String (Result String (A × String)) → Type 0
    Finishes r = Ended name prices (finished show I name prices r)
