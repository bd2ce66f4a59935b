-- ===== src/Strategies/Tests.antt =====
-- Runs of user-server/user_server/strategies on a small interpreter.
use artic_trader.Prelude.{
  ℕ, zero, suc, ◌≤◌, String, Bool, true, false, Option, none, some, List, [], ◌∷◌, map, ◌≡◌, ◌↔◌,
  refl, leb, str_eq, if◌then◌else◌,
}
use artic_trader.Prelude.Exec.{ok}
use artic_trader.Dict.{Dict, get}
use artic_trader.Trading.Whole.{whole}
use artic_trader.Trading.Session.{Candle}
use artic_trader.Backtest.Metrics.{
  MathOps, sharpe, ratio, squares, returns, max_drawdown, deepen, win_rate, wins, total_return,
}
use artic_trader.Backtest.Orders.{
  long, CloseReason, Position, Outcome, hit, size_frac, close_position, mtm,
}
use artic_trader.Backtest.Replay.{
  run, full_run, replay, candle_step, check_levels, ask, apply, open_run, close_run, value,
  close_last, outcome,
}
use artic_trader.Strategies.Sandbox.{
  Node, node, end, child, among, ends_with, is_dunder, check_text, check_node, check_all, walk_from,
  walk, size, validate_ast,
}
use artic_trader.Strategies.Walk.{Everywhere}
use artic_trader.Strategies.Clean.{IsClean, validate_ast-Everywhere}
use artic_trader.Strategies.Python.{Interpreter}
use artic_trader.Strategies.Loader.{StrategyHandle, parse_and_validate, load_strategy}
use artic_trader.Strategies.Sound.{IsLoaded, load_strategy-IsLoaded, IsValid, tick-IsValid}
use artic_trader.Strategies.Tick.{tick}
use artic_trader.Strategies.Run as Legacy
use artic_trader.Strategies.Cache.{max_entries, evict, look_up, store, requests, cache_size}
use artic_trader.Strategies.History.{history, requests-evict}
use artic_trader.Strategies.Threads.{imported, looked, stored, Reached-sound}
use artic_trader.Strategies.Simulated.{runner_tick}

pub data Obj : Type 0 where
  function : Obj
  text : String → Obj
  num : ℕ → Obj
  decision : String → ℕ → Obj
  pair : ℕ → String → Obj

abbrev good_tree : Node
good_tree = node "Module" none (child (node "Name" (some "ctx") end) end)

abbrev pub bad_tree : Node
bad_tree = node "Module" none (child (node "Name" (some "__class__") end) end)

abbrev dict_of : Obj → Option (Dict Obj)
dict_of (decision a n) = some (("action", text a) ∷ ("size", num n) ∷ [])
dict_of _ = none

abbrev text_in : Obj → Option String
text_in (text s) = some s
text_in _ = none

abbrev number_in : Obj → Option ℕ
number_in (num n) = some n
number_in _ = none

abbrev pair_in : Obj → Option (Obj × Obj)
pair_in (pair n s) = some (num n, text s)
pair_in _ = none

abbrev is_number : Obj → Bool
is_number (num n) = true
is_number _ = false

abbrev is_function : Obj → Bool
is_function function = true
is_function _ = false

-- Opens at the first call and closes at the second.
abbrev pub python : Interpreter Obj ℕ ℕ ℕ
python = record {
  parse = λ s. if str_eq s "bad" then ok bad_tree else ok good_tree;
  compile_tree = λ t. ok 0;
  exec_tree = λ c. ok (("on_tick", function) ∷ []);
  sha256 = λ s. s;
  compile_restricted = λ s. ok 0;
  exec_code = λ c. ok (("compute", function) ∷ [], []);
  callable = is_function;
  truth = λ v. true;
  hashable = λ v. true;
  as_dict = dict_of;
  as_text = text_in;
  as_pair = pair_in;
  is_number = is_number;
  to_float = number_in;
  type_name = λ v. "object";
  call_tick = λ f ctx w. (ok (decision (if leb w 0 then "OPEN_LONG" else "CLOSE") 1), suc w);
  call_compute = λ f. ok (pair 1 "up");
}

abbrev handle : StrategyHandle Obj
handle = record {
  on_tick = function;
  on_init = none;
  on_close = none;
  get_params = none;
  code_hash = "good";
}

validate_ast-Everywhere_example : (validate_ast bad_tree ≡ ok tt) ↔ Everywhere IsClean bad_tree
validate_ast-Everywhere_example = validate_ast-Everywhere bad_tree

accepts : validate_ast good_tree ≡ ok tt
unfolding validate_ast walk size walk_from check_all check_node check_text among is_dunder ends_with
accepts = refl

loads : load_strategy python "good" ≡ ok handle
unfolding load_strategy parse_and_validate validate_ast walk size walk_from check_all check_node
    check_text among is_dunder ends_with get
loads = refl

load_strategy-IsLoaded_example : IsLoaded python "good" handle
load_strategy-IsLoaded_example = load_strategy-IsLoaded python "good" loads

ticks :
    tick python ⦃o = whole⦄ handle function 0
    ≡ (ok (record { action = "OPEN_LONG"; size = 1; reason = "" }), 1)
unfolding tick get among
ticks = refl

tick-IsValid_example : IsValid ⦃o = whole⦄ (record { action = "OPEN_LONG"; size = 1; reason = "" })
tick-IsValid_example = tick-IsValid python ⦃o = whole⦄ (refl, refl) handle function 0 1 ticks

requests-evict_example :
    ((requests python.sha256 (load_strategy python) ("a" ∷ "bad" ∷ "a" ∷ []) []).0
      ≡ map (load_strategy python) ("a" ∷ "bad" ∷ "a" ∷ []))
    × ((requests python.sha256 (load_strategy python) ("a" ∷ "bad" ∷ "a" ∷ []) []).1
        ≡ evict (history python.sha256 (load_strategy python) [] ("a" ∷ "bad" ∷ "a" ∷ [])))
    × (cache_size (requests python.sha256 (load_strategy python) ("a" ∷ "bad" ∷ "a" ∷ []) []).1
        ≤ max_entries)
requests-evict_example = requests-evict python ("a" ∷ "bad" ∷ "a" ∷ []) (λ s t e. e)

abbrev two_threads : Dict (StrategyHandle Obj)
two_threads = (look_up "good" (store "good" handle (store "good" handle []))).1

Reached-sound_example :
    (cache_size two_threads ≤ max_entries)
    × ((s : String) (h : StrategyHandle Obj)
        → get two_threads s ≡ some h
        → load_strategy python s ≡ ok h)
Reached-sound_example =
    Reached-sound python two_threads (λ s t e. e)
      (looked "good" (stored "good" handle loads (stored "good" handle loads imported)))

abbrev pub math : MathOps ℕ
math = record { sqrt = λ x. x; square = λ x. ok x }

abbrev pub candles_of : ℕ → List (Candle ℕ)
candles_of zero = []
candles_of (suc n) =
    record { open_price = 10; high = 12; low = 9; close_price = 10; volume = 1 } ∷ candles_of n

abbrev pub context : List (Candle ℕ) → Option (Position ℕ) → Obj
context cs q = function

abbrev result : Outcome ℕ
result = record {
  sharpe = 0;
  max_drawdown = 0;
  total_return = 0;
  win_rate = 0;
  n_trades = 1;
  final_equity = 999;
  equity_curve = 1000 ∷ 1000 ∷ 999 ∷ [];
  trades =
      record {
        side = long;
        entry = 10;
        exit = 10;
        size_usdt = 1000;
        pnl_usdt = 0;
        reason = CloseReason.signal_close;
      }
      ∷ [];
}

simulates :
    run ⦃o = whole⦄ (runner_tick python ⦃o = whole⦄ context handle) 10 math (candles_of 22) 1000 0
    ≡ ok result
unfolding run full_run replay candle_step check_levels hit ask apply open_run size_frac close_run
    close_position value mtm close_last outcome sharpe ratio squares returns max_drawdown deepen
    win_rate wins total_return runner_tick tick get among
simulates = refl
