-- ===== src/Strategies/Python.antt =====
-- What the runners of user-server/user_server/strategies/runner.py use of Python: its parser,
-- `compile` and `exec`, RestrictedPython, and the user's code. None of it is under verification
-- here: it is a parameter.
use artic_trader.Prelude.{String, Bool, Option}
use artic_trader.Prelude.Exec.{Result}
use artic_trader.Dict.{Dict}
use artic_trader.Strategies.Sandbox.{Node, SandboxError}

-- How a call of the user's code ends when it does not return: by the alarm, by another `Exception`
-- with its text, or by a `BaseException` that is none, such as `SystemExit`.
pub data Raised : Type 0 where
  timed_out : Raised
  raised : String → Raised
  escaped : String → Raised

-- How RestrictedPython refuses a source: by a `SyntaxError`, or by another exception.
pub data CompileError : Type 0 where
  syntax_error : String → CompileError
  other_error : String → CompileError

-- What the loader and `tick` raise: the sandbox's own errors, three of Python's, and what escapes
-- `except Exception`.
pub data Failure : Type 0 where
  sandbox : SandboxError → Failure
  uncompiled : String → Failure
  unhashable : Failure
  float_overflow : Failure
  uncaught : String → Failure

-- `V` is Python's objects, `A` its floats, `Code` compiled code, `W` what the user's code may read and
-- change between two calls.
pub record Interpreter (V A Code W : Type 0) : Type 0 where
  -- ast.parse, `compile` of a tree, and the namespace that `exec` leaves
  pub parse : String → Result String Node
  pub compile_tree : Node → Result String Code
  pub exec_tree : Code → Result Raised (Dict V)
  pub sha256 : String → String
  -- compile_restricted, and `exec` of its code: the locals and the globals
  pub compile_restricted : String → Result CompileError Code
  pub exec_code : Code → Result Raised (Dict V × Dict V)
  pub callable : V → Bool
  pub truth : V → Bool
  pub hashable : V → Bool
  -- isinstance(v, dict), isinstance(v, str), a tuple of two, isinstance(v, (int, float))
  pub as_dict : V → Option (Dict V)
  pub as_text : V → Option String
  pub as_pair : V → Option (V × V)
  pub is_number : V → Bool
  -- float(v) of a number; `none` where the number is too large
  pub to_float : V → Option A
  -- type(v).__name__
  pub type_name : V → String
  -- `on_tick(ctx)`, and `compute(plan, price_history, candles)` of the arguments of the run
  pub call_tick : V → V → W → Result Raised V × W
  pub call_compute : V → Result Raised V
