-- ===== src/Strategies/Loader.antt =====
-- The loader of user-server/user_server/strategies/runner.py, and `parse_and_validate` of sandbox.py.
use Prim.Native.String.{◌++◌ as ◌<>◌}
use artic_trader.Prelude.{String, Option, none, some, if◌then◌else◌}
use artic_trader.Prelude.Exec.{Result, ok, err}
use artic_trader.Prelude.Results.{◌>>=◌, ◌>>◌}
use artic_trader.Dict.{Dict, get}
use artic_trader.Strategies.Sandbox.{
  SandboxError, ast_violation, runtime_violation, Node, validate_ast,
}
use artic_trader.Strategies.Python.{
  Interpreter, Raised, timed_out, raised, escaped, Failure, sandbox, uncompiled, uncaught,
}

pub record StrategyHandle (V : Type 0) : Type 0 where
  pub on_tick : V
  pub on_init : Option V
  pub on_close : Option V
  pub get_params : Option V
  pub code_hash : String

abbrev pub from_sandbox : {X : Type 0} → Result SandboxError X → Result Failure X
from_sandbox (ok x) = ok x
from_sandbox (err e) = err (sandbox e)

abbrev pub compiled : {X : Type 0} → Result String X → Result Failure X
compiled (ok c) = ok c
compiled (err msg) = err (uncompiled msg)

module _ {V A Code W : Type 0} (I : Interpreter V A Code W) where
  abbrev pub syntax_checked : Result String Node → Result SandboxError Node
  syntax_checked (err msg) = err (ast_violation ("syntax error: " <> msg))
  syntax_checked (ok tree) = validate_ast tree >> ok tree

  unfoldable pub parse_and_validate : String → Result SandboxError Node
  parse_and_validate source = syntax_checked (I.parse source)

  -- ns.get(k) if callable(ns.get(k)) else None
  abbrev pub if_callable : Option V → Option V
  if_callable none = none
  if_callable (some v) = if I.callable v then some v else none

  abbrev pub handle_of : String → Dict V → Option V → Result Failure (StrategyHandle V)
  handle_of source ns none =
      err (sandbox (runtime_violation "strategy missing required `on_tick(ctx)` function"))
  handle_of source ns (some f) = ok (record {
    on_tick = f;
    on_init = if_callable (get ns "on_init");
    on_close = if_callable (get ns "on_close");
    get_params = if_callable (get ns "get_params");
    code_hash = I.sha256 source;
  })

  -- The alarm is not set here.
  abbrev pub executed : String → Result Raised (Dict V) → Result Failure (StrategyHandle V)
  executed source (err (escaped msg)) = err (uncaught msg)
  executed source (err timed_out) =
      err (sandbox (runtime_violation "load failed: TimeoutViolation"))
  executed source (err (raised msg)) = err (sandbox (runtime_violation ("load failed: " <> msg)))
  executed source (ok ns) = handle_of source ns (if_callable (get ns "on_tick"))

  unfoldable pub load_strategy : String → Result Failure (StrategyHandle V)
  load_strategy source = do
    tree ← from_sandbox (parse_and_validate source)
    code ← compiled (I.compile_tree tree)
    executed source (I.exec_tree code)
